-- ===== src/Objects.antt =====
-- The class that every kind of resource extends, in objects/object.js, and the handlers over it.
pub mod Types
pub mod Writes
pub mod Requests
pub mod Changes
pub mod DryRuns
pub mod Scaling
pub mod Finalizers
pub mod Replies
pub mod Immutable
pub mod Paging
pub mod Pages
mod Examples

-- ===== src/Handlers.antt =====
-- The handlers of middleware/general.js, which serve every kind of resource.
pub mod Checks
pub mod Frozen
pub mod Selectors
pub mod Labels
pub mod Watching
pub mod Resuming
mod Examples

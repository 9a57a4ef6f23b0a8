-- ===== src/Json.antt =====
-- JSON, of which requests, stored objects and replies are made.
pub mod Value
pub mod Members
pub mod Merging
pub mod Same
pub mod Patches
pub mod Pointers
mod Examples

-- ===== src/Helpers.antt =====
-- The helpers of functions.js.
pub mod Duration
pub mod Rounding
mod Examples

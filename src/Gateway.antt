-- ===== src/Gateway.antt =====
-- The gateway of store/gateway.js. `Decode`, `Calls` and `Streams` hold
-- the functions; `Compares`, `Logged` and `Reading` prove.
pub mod Decode
pub mod Compares
pub mod Calls
pub mod Logged
pub mod Reading
pub mod Streams
pub mod Examples

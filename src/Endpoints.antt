-- ===== src/Endpoints.antt =====
-- The endpoints controller of controllers/endpoints.js.
pub mod Backends
pub mod Reconcile
pub mod Agreement
pub mod Settled
mod Examples

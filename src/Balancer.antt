-- ===== src/Balancer.antt =====
-- The load balancer of loadBalancer/index.js.
pub mod Tables
pub mod Rotation
mod Examples

-- ===== src/Pods.antt =====
-- The pods of objects/pod.js.
pub mod Probes
pub mod Readiness
pub mod InitContainers
pub mod Launch
mod Examples

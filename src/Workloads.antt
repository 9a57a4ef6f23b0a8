-- ===== src/Workloads.antt =====
-- The controllers that own pods: objects/deployment.js and objects/replicationController.js.
pub mod Names
pub mod Ownership
pub mod Rollout
pub mod Thinning
pub mod Generations
pub mod Rolling
mod Examples

-- ===== src/Node.antt =====
-- The node of store/node.js, which puts a client's command to the replicas.
pub mod Execute
pub mod Swaps
mod Examples
pub mod Commands
pub mod Encoding

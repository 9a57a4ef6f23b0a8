-- ===== src/Mvcc.antt =====
-- The MVCC keyspace of store/mvcc.js: the state machine that Raft applies committed entries to.
-- `Types` holds the state; `Read`, `Write`, `Watch`, `Compare`, `Batch`, `Compact`, `Leases` and
-- `Apply` the operations; the other children prove.
pub mod Types
pub mod Read
pub mod Write
pub mod Watch
pub mod Compare
pub mod Batch
pub mod Compact
pub mod Leases
pub mod Apply
pub mod Chains
pub mod Grows
pub mod Atomicity
pub mod History
pub mod Valid
pub mod Preserve
pub mod Survivors
pub mod Compaction
pub mod Machine
pub mod Lookup
pub mod Deletion
pub mod Swap
pub mod Revocation
pub mod Watches
pub mod Snapshot
pub mod Leak
mod Examples

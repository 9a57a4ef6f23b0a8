-- ===== src/Raft.antt =====
-- One replica of store/raft.js: its log, elections, replication and the apply loop, over store/wal.js.
-- `Types` holds the state; `Log`, `Progress`, `Election`, `Leading`, `Following` and `Lifecycle` the
-- operations; `Steps` makes events of them; the other children prove.
pub mod Types
pub mod Log
pub mod Progress
pub mod Election
pub mod Leading
pub mod Following
pub mod Lifecycle
pub mod Votes
pub mod Steps
pub mod Leads
pub mod Once
pub mod Applied
pub mod Commit
pub mod Quorum
pub mod Stale
pub mod Stored
pub mod Examples

-- ===== src/Wal.antt =====
-- The text of the log file of store/wal.js, and its recovery after a crash. `Files` holds the class
-- `Wal`; the other children prove.
pub mod Files
pub mod Lines
pub mod Recovery
pub mod Torn
pub mod Examples

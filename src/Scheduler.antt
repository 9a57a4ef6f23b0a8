-- ===== src/Scheduler.antt =====
-- The scheduler of controllers/scheduler.js. `Types` holds pods and nodes; `Usage`, `Filter`, `Score`
-- and `Schedule` the functions; the other children prove.
pub mod Types
pub mod Doubles
pub mod Usage
pub mod Filter
pub mod Score
pub mod Schedule
pub mod Ranking
pub mod Choice
pub mod Totals
pub mod Sums
pub mod Bound
pub mod Capacity
pub mod Races
pub mod Refusals
mod Examples

-- ===== src/Market.antt =====
-- app/services/scheduler.py: the market loop. `Lease` is the row that makes one process the leader.
pub mod Lease
pub mod Levels
pub mod SignalRows
pub mod Candidate
pub mod Votes
pub mod Scan
pub mod Cycle

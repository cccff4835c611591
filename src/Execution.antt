-- ===== src/Execution.antt =====
-- The execution layer: app/execution.
pub mod Validation
pub mod Broker
pub mod Request
pub mod Records
pub mod Protection
pub mod Submit

-- ===== src/Tests.antt =====
-- The runs of the model at concrete inputs.
mod Data
mod Risk
mod Execution
mod Bot
mod Reconciliation
mod Market
mod News
mod Strategies
mod Candidate
mod Cycle
mod Supervisor
mod Analytics

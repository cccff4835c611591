-- ===== src/Risk/Engine.antt =====
-- app/risk/engine.py: the ordered chain of named checks. `Facts` holds the inputs and the derived
-- numbers, `Checks` the verdict of each check, `Session` the persisted side (what is read, locked and
-- latched), and this file the assessment. The reason of a check is fixed by its name and its inputs
-- and is not kept; log lines are left out.
pub mod Facts
pub mod Checks
pub mod Session
pub mod Assess
pub mod Approval
pub mod Untouched

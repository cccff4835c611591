-- ===== src/Risk.antt =====
-- The pre-trade risk layer: app/risk.
pub mod Sizing
pub mod State
pub mod Authorization
pub mod Engine

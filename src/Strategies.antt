-- ===== src/Strategies.antt =====
-- app/strategies: what the strategies share (_common.py), the vote over their signals (ensemble.py)
-- and the management of an open position's stop (app/portfolio/manager.py).
pub mod Common
pub mod Ensemble
pub mod Trailing

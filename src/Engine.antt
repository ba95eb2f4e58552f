-- ===== src/Engine.antt =====
-- The desired portfolio and the next action: src/hyperliquid_copytrader/desired_engine.py, on the
-- rounding rules of precision.py and the checks of order_preflight.py.
pub mod Precision
pub mod Preflight
pub mod Records
pub mod Choose
pub mod Sizes
pub mod Admitted
pub mod Chosen
pub mod Rounds
pub mod Idle
pub mod Limits
pub mod Portfolio
pub mod Selected
mod Tests

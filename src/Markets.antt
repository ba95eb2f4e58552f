-- ===== src/Markets.antt =====
-- Market names: src/hyperliquid_copytrader/markets.py.
pub mod Identity
pub mod Canonical
mod Tests

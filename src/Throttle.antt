-- ===== src/Throttle.antt =====
-- The REST throttle that the processes of one host share: src/hyperliquid_copytrader/rest_throttle.py.
pub mod Weights
pub mod Reserve
pub mod Spacing
pub mod Backoff
pub mod Retries
mod Tests

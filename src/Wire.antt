-- ===== src/Wire.antt =====
-- The WebSocket POST transport and the readings of its responses: ws_actions.py
-- (src/hyperliquid_copytrader).
pub mod Json
pub mod Results
pub mod Classify
pub mod Classified
pub mod Status
pub mod Resolved
pub mod Retry
pub mod Post
pub mod Boundary

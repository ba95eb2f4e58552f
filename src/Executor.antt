-- ===== src/Executor.antt =====
-- The signer lane, which turns a next action into one journaled IOC order:
-- src/hyperliquid_copytrader/continuous_executor.py.
pub mod Orders
pub mod Records
pub mod Recording
pub mod Lane
pub mod Recover
pub mod Reached
pub mod Histories
pub mod OneOpen
pub mod Writes
pub mod Settles
pub mod Exposure
pub mod Resolve
pub mod Resolutions
mod Tests

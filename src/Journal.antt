-- ===== src/Journal.antt =====
-- The durable nonce and action journal: src/hyperliquid_copytrader/action_journal.py.
pub mod States
pub mod Records
pub mod Changes
pub mod Store
pub mod Rows
pub mod Table
pub mod Calls
pub mod Invariant
pub mod Preserve
pub mod History
pub mod Keys
pub mod Sends
pub mod Outcomes
pub mod Fills
pub mod Nonces
pub mod Prepares
pub mod Recovery
pub mod Open
mod Tests

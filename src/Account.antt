-- ===== src/Account.antt =====
-- The reducer of the source's and the follower's account frames:
-- src/hyperliquid_copytrader/account_stream.py, with parsers of unified_account.py and observer.py.
pub mod Records
pub mod Memory
pub mod Chain
pub mod Continuity
pub mod Rows
pub mod Stream
pub mod Fills
pub mod Recency
pub mod Remembered
pub mod Seeded
pub mod NeverAgain
pub mod Reduced
pub mod Reports
pub mod Effects
pub mod Epochs
pub mod Spot
pub mod States
pub mod Snapshots
pub mod Forward
pub mod Channels
pub mod Orders
pub mod OpenOrders
pub mod Distinct
pub mod Apply
pub mod KeptOrders
pub mod Sessions
mod Tests

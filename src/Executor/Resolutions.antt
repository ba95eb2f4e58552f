-- ===== src/Executor/Resolutions.antt =====
-- `resolve_by_cloid` changes the journal by one call at most, and prepares nothing.
use hyperliquid_copytrader.Base.Text.{Text}
use hyperliquid_copytrader.Journal.Store.{Journal}
use hyperliquid_copytrader.Executor.Reached.{Reached}

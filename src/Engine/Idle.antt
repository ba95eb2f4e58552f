-- ===== src/Engine/Idle.antt =====
-- When `choose_next_action` has nothing to do.
use hyperliquid_copytrader.Base.Text.{Text}

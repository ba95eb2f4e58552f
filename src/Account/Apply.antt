-- ===== src/Account/Apply.antt =====
-- `AccountStream.apply` (account_stream.py).
use hyperliquid_copytrader.Base.{ℕ, Option, if◌then◌else◌}
use hyperliquid_copytrader.Base.Int.{ℤ}
use hyperliquid_copytrader.Base.Text.{Text, codes, text_eq}
use hyperliquid_copytrader.Journal.Records.{Result, ok, err, ◌>>=◌}
use hyperliquid_copytrader.Wire.Json.{Json, get}
use hyperliquid_copytrader.Account.Records.{
  AccountStreamError, fills, bad_message, unsupported_channel,
}
use hyperliquid_copytrader.Account.Rows.{text_or_empty}
use hyperliquid_copytrader.Account.Stream.{Stream, validate_frame, seen_at}
use hyperliquid_copytrader.Account.Fills.{FillsUpdate, fields_of, apply_fills, apply_twap_fills}
use hyperliquid_copytrader.Account.Spot.{ChannelUpdate, apply_spot}
use hyperliquid_copytrader.Account.Snapshots.{apply_positions}
use hyperliquid_copytrader.Account.OpenOrders.{apply_open_orders, apply_order_updates}

-- `AccountStreamUpdate` of either kind of channel
pub data Update : Type 0 where
  of_fills : FillsUpdate → Update
  of_state : ChannelUpdate → Update

pub data Channel : Type 0 where
  all_dexs_clearinghouse_state spot_state open_orders order_updates user_fills : Channel
  user_twap_slice_fills : Channel

abbrev pub channel_of : Text → Result AccountStreamError Channel
channel_of t =
    if text_eq t (codes "allDexsClearinghouseState")
    then ok all_dexs_clearinghouse_state
    else if text_eq t (codes "spotState")
    then ok spot_state
    else if text_eq t (codes "openOrders")
    then ok open_orders
    else if text_eq t (codes "orderUpdates")
    then ok order_updates
    else if text_eq t (codes "userFills")
    then ok user_fills
    else if text_eq t (codes "userTwapSliceFills")
    then ok user_twap_slice_fills
    else err unsupported_channel

module _ (one : ℕ) (shown : Json → Text) (int_text : Text → Option ℤ) where
  abbrev pub reduce : Channel → ℕ → Json → Stream → Result AccountStreamError (Stream × Update)
  reduce all_dexs_clearinghouse_state at payload s = do
    r ← apply_positions one shown int_text at payload s
    ok (r.0, of_state r.1)
  reduce spot_state at payload s = do
    r ← apply_spot shown int_text at payload s
    ok (r.0, of_state r.1)
  reduce open_orders at payload s = do
    r ← apply_open_orders shown int_text at payload s
    ok (r.0, of_state r.1)
  reduce order_updates at payload s = do
    r ← apply_order_updates shown int_text at payload s
    ok (r.0, of_state r.1)
  reduce user_fills at payload s = do
    r ← apply_fills shown int_text fills at payload s
    ok (r.0, of_fills r.1)
  reduce user_twap_slice_fills at payload s = do
    r ← apply_twap_fills shown int_text at payload s
    ok (r.0, of_fills r.1)

  -- `AccountStream.apply`
  unfoldable pub apply : Json → ℕ → ℤ → Stream → Result AccountStreamError (Stream × Update)
  apply message epoch received_ms s = do
    at ← validate_frame epoch received_ms s
    fs ← fields_of bad_message message
    channel ← channel_of (text_or_empty shown int_text (get (codes "channel") fs))
    r ← reduce channel at (get (codes "data") fs) s
    ok (seen_at at r.0, r.1)

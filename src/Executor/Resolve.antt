-- ===== src/Executor/Resolve.antt =====
-- `resolve_by_cloid` (continuous_executor.py): ask the venue for an open order's status.
use hyperliquid_copytrader.Base.{ℕ, Bool, true, false, ◌++◌, Option, none, some, ltb, if◌then◌else◌}
use hyperliquid_copytrader.Base.Int.{pos}
use hyperliquid_copytrader.Base.Text.{Text, codes}
use hyperliquid_copytrader.Journal.States.{ActionState}
use hyperliquid_copytrader.Journal.Records.{
  JournalError, Result, ok, err, ActionRecord, finite, terminal,
}
use hyperliquid_copytrader.Journal.Store.{Journal, get_owned_action, mark_unknown, record_outcome}
use hyperliquid_copytrader.Wire.Results.{PostOutcome, PostResult}
use hyperliquid_copytrader.Wire.Classify.{unwrapped}
use hyperliquid_copytrader.Wire.Status.{
  OrderState, OrderStatusResolution, classify_order_status, reported_fill_exceeds_submitted_size,
  unknown_transport_outcome,
}
use hyperliquid_copytrader.Wire.Post.{Mux, Network, post_info}
use hyperliquid_copytrader.Executor.Orders.{LaneError, not_owned, cancelled}
use hyperliquid_copytrader.Executor.Records.{Lane}
use hyperliquid_copytrader.Executor.Recording.{on_journal}

abbrev pub state_value : OrderState → Text
state_value OrderState.filled = codes "filled"
state_value OrderState.cancelled = codes "cancelled"
state_value OrderState.rejected = codes "rejected"
state_value OrderState.expired = codes "expired"
state_value OrderState.partially_filled = codes "partially_filled"
state_value OrderState.resting = codes "resting"
state_value reported_fill_exceeds_submitted_size = codes "reported_fill_exceeds_submitted_size"
state_value unknown_transport_outcome = codes "unknown_transport_outcome"

abbrev settled_part : ℕ → ActionState
settled_part size = if ltb 0 size then ActionState.partially_filled else ActionState.canceled

-- The state to record for a resolved order.
abbrev pub state_of_resolution : OrderState → ℕ → Option ActionState
state_of_resolution OrderState.cancelled size = some (settled_part size)
state_of_resolution OrderState.expired size = some (settled_part size)
state_of_resolution OrderState.filled size = some ActionState.filled
state_of_resolution OrderState.partially_filled size = some ActionState.partially_filled
state_of_resolution OrderState.rejected size = some ActionState.rejected
state_of_resolution OrderState.resting size = some ActionState.resting
state_of_resolution _ size = none

abbrev pub resolution_call :
    ℕ
    → ActionRecord
    → OrderStatusResolution
    → Option ActionState
    → Journal
    → Result JournalError (ActionRecord × Journal)
resolution_call now r s none j = mark_unknown now r.cloid (some (state_value s.state)) none j
resolution_call now r s (some state) j =
    record_outcome now r.cloid state (some (finite (pos s.cumulative_filled_abs)))
      (some (codes "ws_order_status:" ++ state_value s.state)) none j

abbrev pub resolved_state : OrderStatusResolution → Option ActionState
resolved_state s = if s.resolved then state_of_resolution s.state s.cumulative_filled_abs else none

abbrev pub is_info : PostOutcome → Bool
is_info PostOutcome.info = true
is_info _ = false

-- The call of the journal that a reply leads to.
unfoldable pub reply_call :
    ℕ → ActionRecord → PostResult → Journal → Result JournalError (ActionRecord × Journal)
reply_call now r result j =
    if is_info result.outcome
    then (let s =
          classify_order_status (unwrapped (codes "info") result.response) r.requested_size in
        resolution_call now r s (resolved_state s) j)
    else mark_unknown now r.cloid (some result.reason) none j

abbrev pub after_info :
    ℕ → ActionRecord → Journal → Option PostResult → Result LaneError ActionRecord × Journal
after_info now r j none = (err cancelled, j)
after_info now r j (some result) = on_journal j (reply_call now r result j)

abbrev pub resolve_owned :
    ℕ
    → ℕ
    → Network
    → Mux
    → Journal
    → ActionRecord
    → Bool
    → Result LaneError ActionRecord × Mux × Journal
resolve_owned now required_epoch network m j r true = (ok r, m, j)
resolve_owned now required_epoch network m j r false =
    let (result, m') = post_info required_epoch network m in
    let (row, k) = after_info now r j result in (row, m', k)

abbrev pub resolve_read :
    ℕ
    → ℕ
    → Network
    → Mux
    → Journal
    → Result JournalError (Option ActionRecord)
    → Result LaneError ActionRecord × Mux × Journal
resolve_read now required_epoch network m j (err e) = (err (LaneError.journal e), m, j)
resolve_read now required_epoch network m j (ok none) = (err not_owned, m, j)
resolve_read now required_epoch network m j (ok (some r)) =
    resolve_owned now required_epoch network m j r (terminal r)

-- `resolve_by_cloid`
unfoldable pub resolve_by_cloid :
    Lane → ℕ → Text → ℕ → Network → Mux → Journal → Result LaneError ActionRecord × Mux × Journal
resolve_by_cloid lane now cloid required_epoch network m j =
    resolve_read now required_epoch network m j
      (get_owned_action cloid lane.follower_account lane.api_wallet_address j)

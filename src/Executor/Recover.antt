-- ===== src/Executor/Recover.antt =====
-- `recover_provably_unsent` and `unresolved_signed_remaining` (continuous_executor.py).
use hyperliquid_copytrader.Base.{ℕ, true, false, List, [], ◌∷◌, none, some, if◌then◌else◌}
use hyperliquid_copytrader.Base.Int.{ℤ, pos, ◌+ℤ◌, ◌-ℤ◌}
use hyperliquid_copytrader.Base.Text.{Text, text_eq}
use hyperliquid_copytrader.Journal.States.{prepared, state_eq}
use hyperliquid_copytrader.Journal.Records.{
  JournalError, Result, ok, err, ◌>>=◌, ActionRecord, remaining_size,
}
use hyperliquid_copytrader.Journal.Store.{Journal, mark_not_sent, recovery_actions}
use hyperliquid_copytrader.Executor.Orders.{LaneError, from_journal}
use hyperliquid_copytrader.Executor.Records.{Lane}

-- The loop of `recover_provably_unsent` over the rows that it has read.
unfoldable pub recover_rows :
    ℕ → List ActionRecord → Journal → Result LaneError (List ActionRecord) × Journal
recover_rows now [] j = (ok [], j)
recover_rows now (r ∷ rs) j = elim (state_eq r.state prepared) [
  | false ↦ recover_rows now rs j
  | true ↦ elim (mark_not_sent now r.cloid none j) [
    | err e ↦ (err (LaneError.journal e), j)
    | ok (s, k) ↦ let (recovered, l) = recover_rows now rs k in (recovered >>= λ ss. ok (s ∷ ss), l)
  ]
]

abbrev pub recover_read :
    ℕ
    → Journal
    → Result JournalError (List ActionRecord)
    → Result LaneError (List ActionRecord) × Journal
recover_read now j (err e) = (err (LaneError.journal e), j)
recover_read now j (ok rows) = recover_rows now rows j

-- `recover_provably_unsent`
unfoldable pub recover_provably_unsent :
    Lane → ℕ → Journal → Result LaneError (List ActionRecord) × Journal
recover_provably_unsent lane now j =
    recover_read now j
      (recovery_actions (some lane.follower_account) (some lane.api_wallet_address) j)

abbrev pub signed_remaining : ActionRecord → ℤ
signed_remaining r =
    if r.action_json.first_order_is_buy then remaining_size r else pos 0 -ℤ remaining_size r

-- `result[market] = result.get(market, 0) + amount`
unfoldable pub add_to : Text → ℤ → List (Text × ℤ) → List (Text × ℤ)
add_to market amount [] = (market, pos 0 +ℤ amount) ∷ []
add_to market amount ((m, total) ∷ rest) =
    if text_eq m market then (m, total +ℤ amount) ∷ rest else (m, total) ∷ add_to market amount rest

-- The loop of `unresolved_signed_remaining`.
unfoldable pub sum_remaining : List ActionRecord → List (Text × ℤ) → List (Text × ℤ)
sum_remaining [] result = result
sum_remaining (r ∷ rs) result =
    sum_remaining rs
      (if state_eq r.state prepared then result else add_to r.market (signed_remaining r) result)

-- `unresolved_signed_remaining`
unfoldable pub unresolved_signed_remaining : Lane → Journal → Result LaneError (List (Text × ℤ))
unresolved_signed_remaining lane j = do
  rows ←
      from_journal (recovery_actions (some lane.follower_account) (some lane.api_wallet_address) j)
  ok (sum_remaining rows [])

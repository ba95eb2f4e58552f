-- ===== src/Wire/Resolved.antt =====
-- What `classify_order_status` may report of a fill.
use hyperliquid_copytrader.Base.{ℕ, ◌<◌, ◌≤◌, ◌≡◌, true, Option, arith, ltb, inl, inr, Bool-cases}
use hyperliquid_copytrader.Base.Int.{ℤ}
use hyperliquid_copytrader.Wire.Json.{Json}
use hyperliquid_copytrader.Wire.Status.{
  OrderState, filled, OrderStatusResolution, nothing_found, visit, cumulative_of, resolve_found,
  resolve_cumulative, classify_order_status,
}

-- What a resolution may say of an order of the size.
pub record Resolution (expected : ℕ) (r : OrderStatusResolution) : Type 0 where
  pub within : r.resolved ≡ true → r.cumulative_filled_abs ≤ expected
  pub filled_some : r.terminal ≡ true → r.state ≡ filled → 0 < r.cumulative_filled_abs
  pub terminal_resolved : r.terminal ≡ true → r.resolved ≡ true

resolve_found-Resolution :
    (expected cumulative : ℕ) (oid : Option ℤ) (s later : Option OrderState)
    → 0 < expected
    → cumulative ≤ expected
    → Resolution expected (resolve_found expected cumulative oid s later)
unfolding resolve_found
resolve_found-Resolution expected cumulative oid s later p h = ground arith

-- A resolved order has at most its size filled, a FILLED one more than nothing, and a terminal
-- resolution is resolved.
pub classify_order_status-Resolution :
    (payload : Json) (expected : ℕ)
    → 0 < expected
    → Resolution expected (classify_order_status payload expected)
unfolding classify_order_status resolve_cumulative
classify_order_status-Resolution payload expected p =
    elim (Bool-cases (ltb expected (cumulative_of (visit payload nothing_found)))) [
      | inl over ↦ rw over (record {
        within = λ e. absurd (cc);
        filled_some = λ e. absurd (cc);
        terminal_resolved = λ e. absurd (cc);
      })
      | inr fits ↦ rw fits (resolve_found-Resolution expected _ _ _ _ p (ground arith))
    ]

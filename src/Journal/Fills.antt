-- ===== src/Journal/Fills.antt =====
-- `record_cumulative_fill`: what it writes, and that a fill which is repeated changes nothing.
use hyperliquid_copytrader.Base.{
  ℕ, ◌≤◌, ◌<◌, ◌≡◌, ◌↔◌, subst, true, false, Option, some, arith, get_or,
}
use hyperliquid_copytrader.Base.Text.{Text}
use hyperliquid_copytrader.Journal.States.{filled, partially_filled, terminal_states}
use hyperliquid_copytrader.Journal.Records.{
  >>=-returns, ActionRecord, DecimalText, ok, positive_int, nonnegative_decimal, validate_cloid,
}
use hyperliquid_copytrader.Journal.Changes.{unchanged, fill_change}
use hyperliquid_copytrader.Journal.Rows.{RowIsValid, was_sent, fill_change-Keeps}
use hyperliquid_copytrader.Journal.Store.{
  Journal, find_action, change_action, record_cumulative_fill,
}
use hyperliquid_copytrader.Journal.Invariant.{JournalIsValid, Written}
use hyperliquid_copytrader.Journal.Sends.{Opened, change_action-Wrote}
use hyperliquid_copytrader.Journal.Outcomes.{unchanged_again, positive_int-ok}

-- The row that a fill left takes the same fill unchanged.
fill_change-again :
    (n t t' : ℕ) (r s : ActionRecord)
    → RowIsValid r
    → Written (fill_change n t r) r s
    → fill_change n t' s ≡ ok unchanged
unfolding fill_change
fill_change-again n t t' r s v w = ground arith

record_cumulative_fill-Opened :
    (now : ℕ) (cloid : Text) (filled_size : DecimalText) (observed_ms : Option ℕ) (j : Journal)
    (q : ActionRecord × Journal)
    → record_cumulative_fill now cloid filled_size observed_ms j ≡ ok q
    → (n : ℕ) × (nonnegative_decimal filled_size ≡ ok n)
      × Opened cloid (λ c (t : ℕ). change_action c (fill_change n t) j) q
unfolding record_cumulative_fill
record_cumulative_fill-Opened now cloid filled_size observed_ms j q h =
    let (c, e, h₁) = >>=-returns (validate_cloid cloid) _ h in
    let (n, d, h₂) = >>=-returns (nonnegative_decimal filled_size) _ h₁ in
    let (t, _, h₃) = >>=-returns (positive_int (get_or observed_ms now)) _ h₂ in
    (n, d, record { name = c; argument = t; name_read = e; ran = h₃ })

-- A cumulative fill that a valid journal recorded can be recorded again, at any positive time: the journal and
-- the row stay as they are.
pub record_cumulative_fill_idempotent :
    (now later : ℕ) (cloid : Text) (filled_size : DecimalText) (observed_ms observed_ms' : Option ℕ)
    (j k : Journal) (s : ActionRecord)
    → JournalIsValid j
    → 0 < get_or observed_ms' later
    → record_cumulative_fill now cloid filled_size observed_ms j ≡ ok (s, k)
    → record_cumulative_fill later cloid filled_size observed_ms' k ≡ ok (s, k)
unfolding record_cumulative_fill
record_cumulative_fill_idempotent now later cloid filled_size observed_ms observed_ms' j k s v p e =
    let (n, d, opened) =
      record_cumulative_fill-Opened now cloid filled_size observed_ms j (s, k) e in
    let w =
      change_action-Wrote opened.name _ j s k v (fill_change-Keeps n opened.argument) opened.ran in
    let again = unchanged_again opened.name _ k s w.stored.2 (
      fill_change-again n opened.argument (get_or observed_ms' later) w.before s w.before_valid
        w.written) in
    rw (opened.name_read, d, positive_int-ok (get_or observed_ms' later) p) again

-- How a fill of `n` moves a row, as the journal's documentation says it.
pub record FillMoves (n : ℕ) (r s : ActionRecord) : Type 0 where
  pub fill : s.cumulative_filled_size ≡ n
  pub rises : r.cumulative_filled_size ≤ n
  pub full : (s.state ≡ filled) ↔ (n ≡ r.requested_size)
  pub was_attempted : r.cumulative_filled_size < n → was_sent r.state ≡ true
  pub late_fill :
      r.cumulative_filled_size < n
      → n < r.requested_size
      → terminal_states r.state ≡ true
      → s.state ≡ partially_filled
  pub still_open : n < r.requested_size → terminal_states r.state ≡ false → s.state ≡ r.state

fill_change-FillMoves :
    (n t : ℕ) (r s : ActionRecord)
    → RowIsValid r
    → Written (fill_change n t r) r s
    → FillMoves n r s
unfolding fill_change
fill_change-FillMoves n t r s v w = ground arith

-- In a valid journal a successful `record_cumulative_fill` stores the observed fill, which is not
-- below the stored one; the row is FILLED exactly if the fill is the requested size. A partial fill
-- leaves an open row in its state and turns a settled row, a rejected one too, into
-- PARTIALLY_FILLED; a row that was never sent takes no fill.
pub record_cumulative_fill-FillMoves :
    (now : ℕ) (cloid : Text) (filled_size : DecimalText) (observed_ms : Option ℕ) (j k : Journal)
    (s : ActionRecord)
    → JournalIsValid j
    → record_cumulative_fill now cloid filled_size observed_ms j ≡ ok (s, k)
    → (n : ℕ) (c : Text) (r : ActionRecord) → nonnegative_decimal filled_size ≡ ok n
    → validate_cloid cloid ≡ ok c
    → find_action c j.actions ≡ some r
    → FillMoves n r s × (find_action c k.actions ≡ some s)
record_cumulative_fill-FillMoves now cloid filled_size observed_ms j k s v e n c r dn dc h =
    let (m, d, opened) =
      record_cumulative_fill-Opened now cloid filled_size observed_ms j (s, k) e in
    let w =
      change_action-Wrote opened.name _ j s k v (fill_change-Keeps m opened.argument) opened.ran in
    let same_name : opened.name ≡ c = ground (arith, opened.name_read) in
    let same_fill : m ≡ n = ground (arith, d) in
    let same_row : w.before ≡ r = ground (arith, w.found) in
    (
      subst (λ x. FillMoves n x s) same_row
          (subst (λ x. FillMoves x w.before s) same_fill
            (fill_change-FillMoves m opened.argument w.before s w.before_valid w.written)),
      rw (← same_name) w.stored.2,
    )

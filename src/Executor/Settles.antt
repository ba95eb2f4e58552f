-- ===== src/Executor/Settles.antt =====
-- `_record_result`: every result that the transport reports is recorded, and never raises.
use hyperliquid_copytrader.Base.{
  ℕ, ◌≤◌, ◌<◌, ◌≡◌, refl, sym, subst, ◌≢◌, ◌∙◌, ◌⊎◌, inl, inr, true, Option, none, some, arith,
}
use hyperliquid_copytrader.Base.Int.{pos}
use hyperliquid_copytrader.Base.Text.{Text}
use hyperliquid_copytrader.Journal.States.{
  ActionState, prepared, send_attempted, venue_outcomes, unknown, rejected, filled,
  partially_filled, canceled, not_sent,
}
use hyperliquid_copytrader.Journal.Records.{
  ok, ActionRecord, finite, validate_cloid, normalized_detail,
}
use hyperliquid_copytrader.Journal.Changes.{not_sent_change}
use hyperliquid_copytrader.Journal.Rows.{FillFits}
use hyperliquid_copytrader.Journal.Store.{
  Journal, find_action, mark_not_sent, mark_unknown, record_outcome, get_action,
}
use hyperliquid_copytrader.Journal.Outcomes.{positive_int-ok}
use hyperliquid_copytrader.Wire.Results.{PostOutcome, PostResult}
use hyperliquid_copytrader.Wire.Classified.{OutcomeFits}
use hyperliquid_copytrader.Executor.Recording.{record_result, result_call}
use hyperliquid_copytrader.Executor.Writes.{
  Returned, change_action-Returned, not_sent_change-prepared, outcome_change-sent,
  unknown_change-sent,
}

-- The state that a result settles a row in.
abbrev pub settled_state : PostOutcome → ActionState → ActionState
settled_state PostOutcome.not_sent ActionState.prepared = ActionState.not_sent
settled_state PostOutcome.rejected s = ActionState.rejected
settled_state PostOutcome.filled s = ActionState.filled
settled_state PostOutcome.partially_filled s = ActionState.partially_filled
settled_state PostOutcome.cancelled s = ActionState.canceled
settled_state _ s = ActionState.unknown

-- The row of a result that `_record_result` awaits.
pub record Awaits (r : ActionRecord) (result : PostResult) : Type 0 where
  pub no_fill : r.cumulative_filled_size ≡ 0
  pub positive : 0 < r.requested_size
  pub boundary :
      ((r.state ≡ prepared) × (result.outcome ≡ PostOutcome.not_sent)) ⊎ (r.state ≡ send_attempted)
  pub fits : OutcomeFits result.outcome result.filled_size r.requested_size

module _ (now : ℕ) (cloid : Text) (j : Journal) (r : ActionRecord) (positive : 0 < now)
    (named : validate_cloid cloid ≡ ok cloid) (found : find_action cloid j.actions ≡ some r) where
  mark_not_sent-Returned :
      r.state ≡ prepared
      → Returned cloid not_sent r.cumulative_filled_size (mark_not_sent now cloid none j)
  unfolding mark_not_sent
  mark_not_sent-Returned s =
      rw (named, positive_int-ok now positive)
        (change_action-Returned cloid (not_sent_change now) j r _ found
          (not_sent_change-prepared now r s) refl)

  mark_unknown-Returned :
      (detail : Option Text)
      → r.state ≡ send_attempted
      → r.cumulative_filled_size < r.requested_size
      → Returned cloid unknown r.cumulative_filled_size (mark_unknown now cloid detail none j)
  unfolding mark_unknown record_outcome
  mark_unknown-Returned detail s p =
      rw (named, positive_int-ok now positive)
        (change_action-Returned cloid _ j r _ found
          (unknown_change-sent (normalized_detail detail) now r s p) refl)

  record_outcome-Returned :
      (target : ActionState) (n : ℕ) (detail : Option Text)
      → venue_outcomes target ≡ true
      → r.state ≡ send_attempted
      → r.cumulative_filled_size ≤ n
      → 0 < r.requested_size
      → FillFits target n r.requested_size
      → Returned cloid target n
          (record_outcome now cloid target (some (finite (pos n))) detail none j)
  unfolding record_outcome
  record_outcome-Returned target n detail o s h p f =
      rw (named, o, positive_int-ok now positive)
        (change_action-Returned cloid _ j r _ found
          (outcome_change-sent target n (normalized_detail detail) now r s h p o f) refl)

  abbrev Settled : PostResult → Type 0
  Settled result =
      Returned cloid (settled_state result.outcome r.state) result.filled_size
        (result_call now cloid result r j)

  sent_row :
      (result : PostResult)
      → Awaits r result
      → result.outcome ≢ PostOutcome.not_sent
      → r.state ≡ send_attempted
  sent_row result w n = elim w.boundary [ inl (s, e) ↦ absurd (n e) | inr s ↦ s ]

  reported-Returned :
      (target : ActionState) (result : PostResult)
      → Awaits r result
      → result.outcome ≢ PostOutcome.not_sent
      → venue_outcomes target ≡ true
      → FillFits target result.filled_size r.requested_size
      → Returned cloid target result.filled_size (
          record_outcome now cloid target
            (some (finite (pos result.filled_size)))
            (some result.reason)
            none
            j)
  reported-Returned target result w n o f =
      let empty = w.no_fill in
      record_outcome-Returned target result.filled_size (some result.reason) o (sent_row result w n)
        (omega arith) w.positive f

  lost-Returned :
      (detail : Text) (n : ℕ)
      → r.state ≡ send_attempted
      → r.cumulative_filled_size ≡ 0
      → 0 < r.requested_size
      → n ≡ 0
      → Returned cloid unknown n (mark_unknown now cloid (some detail) none j)
  lost-Returned detail n s z p e =
      subst (λ k. Returned cloid unknown k (mark_unknown now cloid (some detail) none j))
        (z ∙ sym e) (mark_unknown-Returned (some detail) s (omega arith))

  unsent-Settled :
      (result : PostResult)
      → Awaits r (record result { outcome = PostOutcome.not_sent })
      → Settled (record result { outcome = PostOutcome.not_sent })
  unfolding result_call
  unsent-Settled result w = elim w.boundary [
    | inl (s, e) ↦ rw s (
        subst (λ k. Returned cloid not_sent k (mark_not_sent now cloid none j))
          (w.no_fill ∙ sym w.fits) (mark_not_sent-Returned s))
    | inr s ↦ rw s (lost-Returned _ result.filled_size s w.no_fill w.positive w.fits)
  ]

  outcome-Settled :
      (o : PostOutcome) (result : PostResult)
      → Awaits r (record result { outcome = o })
      → Settled (record result { outcome = o })
  unfolding result_call
  outcome-Settled PostOutcome.not_sent result w = unsent-Settled result w
  outcome-Settled PostOutcome.unknown result w =
      let fits = w.fits in
      let positive_size = w.positive in
      reported-Returned unknown (record result { outcome = PostOutcome.unknown }) w (cc) refl
        (omega arith)
  outcome-Settled PostOutcome.rejected result w =
      reported-Returned rejected (record result { outcome = PostOutcome.rejected }) w (cc) refl
        w.fits
  outcome-Settled PostOutcome.filled result w =
      reported-Returned filled (record result { outcome = PostOutcome.filled }) w (cc) refl w.fits
  outcome-Settled PostOutcome.partially_filled result w =
      reported-Returned partially_filled (record result { outcome = PostOutcome.partially_filled })
        w (cc) refl w.fits
  outcome-Settled PostOutcome.cancelled result w =
      reported-Returned canceled (record result { outcome = PostOutcome.cancelled }) w (cc) refl
        w.fits
  outcome-Settled PostOutcome.info result w =
      lost-Returned _ result.filled_size
        (sent_row (record result { outcome = PostOutcome.info }) w (cc)) w.no_fill w.positive w.fits

-- For a CLOID in lower case that the journal holds without a fill, either still PREPARED with a
-- result NOT_SENT or marked as sent, and a result whose fill fits its outcome, `_record_result`
-- returns at any positive time: the stored row has the state that the outcome stands for and the
-- reported fill.
pub record_result_settles :
    (now : ℕ) (cloid : Text) (result : PostResult) (j : Journal) (r : ActionRecord)
    → 0 < now
    → validate_cloid cloid ≡ ok cloid
    → find_action cloid j.actions ≡ some r
    → Awaits r result
    → (s : ActionRecord) × (k : Journal) × (record_result now cloid result j ≡ (ok s, k))
      × (find_action cloid k.actions ≡ some s)
      × (s.state ≡ settled_state result.outcome r.state)
      × (s.cumulative_filled_size ≡ result.filled_size)
unfolding record_result get_action
record_result_settles now cloid result j r p named found w =
    let d = outcome-Settled now cloid j r p named found result.outcome result w in
    (d.row, d.journal, rw (named, found, d.returned) refl, d.stored, d.state, d.size)

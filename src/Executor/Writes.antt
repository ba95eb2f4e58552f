-- ===== src/Executor/Writes.antt =====
-- The changes of a row that `_record_result` asks for are written.
use hyperliquid_copytrader.Base.{
  ℕ, ◌≤◌, ◌<◌, ◌≡◌, refl, sym, subst, ◌∙◌, true, Option, none, some, arith,
}
use hyperliquid_copytrader.Base.Int.{pos}
use hyperliquid_copytrader.Base.Text.{Text, text_eq_iff}
use hyperliquid_copytrader.Journal.States.{
  ActionState, prepared, send_attempted, venue_outcomes, unknown, not_sent,
}
use hyperliquid_copytrader.Journal.Records.{
  Result, ok, JournalError, ActionRecord, finite, nonnegative_decimal,
}
use hyperliquid_copytrader.Journal.Changes.{
  Change, updated, not_sent_change, outcome_change, outcome_row, observed_change,
  validate_cumulative, validate_fill, validate_outcome, cumulative_or_current,
}
use hyperliquid_copytrader.Journal.Rows.{FillFits}
use hyperliquid_copytrader.Journal.Table.{find_action-cloid, find_action-replace}
use hyperliquid_copytrader.Journal.Store.{
  Journal, find_action, require_action, replace_action, commit, change_action,
}

-- The call has returned the row that the journal now stores.
pub record Returned (cloid : Text) (target : ActionState) (cumulative : ℕ)
    (call : Result JournalError (ActionRecord × Journal)) : Type 0 where
  pub row : ActionRecord
  pub journal : Journal
  pub returned : call ≡ ok (row, journal)
  pub stored : find_action cloid journal.actions ≡ some row
  pub state : row.state ≡ target
  pub size : row.cumulative_filled_size ≡ cumulative

pub change_action-Returned :
    (cloid : Text) (f : ActionRecord → Result JournalError Change) (j : Journal)
    (r s : ActionRecord)
    → find_action cloid j.actions ≡ some r
    → f r ≡ ok (updated s)
    → s.cloid ≡ r.cloid
    → Returned cloid s.state s.cumulative_filled_size (change_action cloid f j)
unfolding change_action require_action commit
change_action-Returned cloid f j r s h e same =
    let named : s.cloid ≡ cloid = same ∙ find_action-cloid cloid r j.actions h in
    let found = subst (λ c. find_action c j.actions ≡ some r) (sym named) h in
    let again : find_action cloid (replace_action s j.actions) ≡ some s =
      rw (find_action-replace cloid s r j.actions found, (text_eq_iff s.cloid cloid).1 named)
        refl in
    record {
      row = s;
      journal = record j { actions = replace_action s j.actions };
      returned = rw (h, require_action) (rw (e, again, require_action) refl);
      stored = again;
      state = refl;
      size = refl;
    }

pub not_sent_change-prepared :
    (t : ℕ) (r : ActionRecord)
    → r.state ≡ prepared
    → not_sent_change t r
      ≡ ok (updated (record r { state = not_sent; updated_ms = t; terminal_ms = some t }))
unfolding not_sent_change
not_sent_change-prepared t r h = ground arith

FillFits-le : (target : ActionState) (n requested : ℕ) → FillFits target n requested → n ≤ requested
FillFits-le target n requested f = ground arith

validate_fill-fits :
    (target : ActionState) (n requested : ℕ)
    → 0 < requested
    → FillFits target n requested
    → validate_fill target n requested ≡ ok tt
unfolding validate_fill
validate_fill-fits target n requested p f = ground arith

validate_cumulative-first :
    (r : ActionRecord) (n : ℕ)
    → r.cumulative_filled_size ≤ n
    → n ≤ r.requested_size
    → validate_cumulative r n ≡ ok tt
unfolding validate_cumulative
validate_cumulative-first r n z h = ground arith

validate_outcome-sent :
    (target : ActionState) (n : ℕ) (r : ActionRecord)
    → r.state ≡ send_attempted
    → venue_outcomes target ≡ true
    → validate_fill target n r.requested_size ≡ ok tt
    → validate_outcome r target n ≡ ok tt
unfolding validate_outcome
validate_outcome-sent target n r s o f = rw (s, o) f

observed_change-sent :
    (target : ActionState) (n : ℕ) (detail : Option Text) (t : ℕ) (r : ActionRecord)
    → r.state ≡ send_attempted
    → venue_outcomes target ≡ true
    → observed_change target n detail t r ≡ updated (outcome_row target n detail t r)
unfolding observed_change
observed_change-sent target n detail t r s o = ground arith

-- An outcome that fits is written on a row that was sent and has no larger fill.
pub outcome_change-sent :
    (target : ActionState) (n : ℕ) (detail : Option Text) (t : ℕ) (r : ActionRecord)
    → r.state ≡ send_attempted
    → r.cumulative_filled_size ≤ n
    → 0 < r.requested_size
    → venue_outcomes target ≡ true
    → FillFits target n r.requested_size
    → outcome_change target (some (finite (pos n))) detail t r
      ≡ ok (updated (outcome_row target n detail t r))
unfolding outcome_change cumulative_or_current nonnegative_decimal
outcome_change-sent target n detail t r s z p o f =
    rw
      (
        validate_cumulative-first r n z (FillFits-le target n r.requested_size f),
        validate_outcome-sent target n r s o (validate_fill-fits target n r.requested_size p f),
        observed_change-sent target n detail t r s o,
      )
      refl

pub unknown_change-sent :
    (detail : Option Text) (t : ℕ) (r : ActionRecord)
    → r.state ≡ send_attempted
    → r.cumulative_filled_size < r.requested_size
    → outcome_change unknown none detail t r
      ≡ ok (updated (outcome_row unknown r.cumulative_filled_size detail t r))
unfolding outcome_change cumulative_or_current nonnegative_decimal
unknown_change-sent detail t r s p =
    outcome_change-sent unknown r.cumulative_filled_size detail t r s (omega arith) (omega arith)
      refl p

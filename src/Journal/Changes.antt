-- ===== src/Journal/Changes.antt =====
-- What each call of action_journal.py does to the row that it has read: the bodies of
-- `mark_send_attempted`, `mark_not_sent`, `record_outcome` and `record_cumulative_fill`
-- between the `SELECT` and the `UPDATE`, with `_validate_cumulative` and `_validate_outcome`.
use hyperliquid_copytrader.Base.{
  ℕ, Bool, true, false, not, ◌&&◌, Option, none, some, ltb, leb, ◌==◌, if◌then◌else◌, is_some,
  get_or,
}
use hyperliquid_copytrader.Base.Text.{Text, text_eq}
use hyperliquid_copytrader.Journal.States.{
  ActionState, prepared, send_attempted, not_sent, unknown, rejected, resting, partially_filled,
  filled, canceled, state_eq, terminal_states, allowed,
}
use hyperliquid_copytrader.Journal.Records.{
  JournalError, Result, ok, err, ◌>>=◌, ◌>>◌, require, ActionRecord, DecimalText,
  nonnegative_decimal, invalid_transition, send_not_prepared, not_sent_not_prepared, fill_decreases,
  fill_exceeds_request, fill_of_unsent, filled_incomplete, partial_not_partial, settled_with_fill,
  complete_fill_kept,
}

-- Either the call returns the row that it read, or it writes a new one.
pub data Change : Type 0 where
  unchanged : Change
  updated : ActionRecord → Change

-- `mark_send_attempted`
unfoldable pub send_attempted_change : Option Text → ℕ → ActionRecord → Result JournalError Change
send_attempted_change request_id observed current = do
  require (state_eq current.state prepared) (send_not_prepared current.state)
  ok (
      updated (record current {
        state = send_attempted;
        request_id = get_or request_id current.request_id;
        updated_ms = observed;
        send_attempted_ms = some observed;
      }))

-- `mark_not_sent`
unfoldable pub not_sent_change : ℕ → ActionRecord → Result JournalError Change
not_sent_change observed current =
    if state_eq current.state not_sent
    then ok unchanged
    else if state_eq current.state prepared
    then ok (
        updated
          (record current { state = not_sent; updated_ms = observed; terminal_ms = some observed }))
    else err (not_sent_not_prepared current.state)

-- `_validate_cumulative`
unfoldable pub validate_cumulative : ActionRecord → ℕ → Result JournalError (Unit {0})
validate_cumulative current cumulative = do
  require (leb current.cumulative_filled_size cumulative) fill_decreases
  require (leb cumulative current.requested_size) fill_exceeds_request

-- The checks of `_validate_outcome` on the fill that a target state goes with.
unfoldable pub validate_fill : ActionState → ℕ → ℕ → Result JournalError (Unit {0})
validate_fill filled cumulative requested = require (cumulative == requested) filled_incomplete
validate_fill partially_filled cumulative requested =
    require (ltb 0 cumulative && ltb cumulative requested) partial_not_partial
validate_fill rejected cumulative requested = require (cumulative == 0) (settled_with_fill rejected)
validate_fill canceled cumulative requested = require (cumulative == 0) (settled_with_fill canceled)
validate_fill unknown cumulative requested =
    require (not (cumulative == requested)) complete_fill_kept
validate_fill resting cumulative requested =
    require (not (cumulative == requested)) complete_fill_kept
validate_fill _ cumulative requested = ok tt

-- `_validate_outcome`
unfoldable pub validate_outcome : ActionRecord → ActionState → ℕ → Result JournalError (Unit {0})
unfolding validate_fill
validate_outcome current target cumulative = do
  require (allowed current.state target) (invalid_transition current.state target)
  validate_fill target cumulative current.requested_size

abbrev pub detail_eq : Option Text → Option Text → Bool
detail_eq none none = true
detail_eq (some s) (some t) = text_eq s t
detail_eq _ _ = false

-- `cumulative_filled_size` as `record_outcome` reads it: the stored one where none is given.
unfoldable pub cumulative_or_current : Option DecimalText → ActionRecord → Result JournalError ℕ
cumulative_or_current none current = ok current.cumulative_filled_size
cumulative_or_current (some value) current = nonnegative_decimal value

-- `terminal_ms` after a move to the state: set once.
abbrev pub terminal_time : ActionState → ℕ → Option ℕ → Option ℕ
terminal_time target observed (some t) = some t
terminal_time target observed none = if terminal_states target then some observed else none

-- The row that `record_outcome` writes.
abbrev pub outcome_row : ActionState → ℕ → Option Text → ℕ → ActionRecord → ActionRecord
outcome_row target cumulative detail observed current = record current {
  state = target;
  cumulative_filled_size = cumulative;
  outcome_detail = detail;
  updated_ms = observed;
  terminal_ms = terminal_time target observed current.terminal_ms;
}

-- Nothing is written where the row holds the observation already.
unfoldable pub observed_change : ActionState → ℕ → Option Text → ℕ → ActionRecord → Change
observed_change target cumulative detail observed current =
    if state_eq target current.state
      && cumulative == current.cumulative_filled_size
      && detail_eq detail current.outcome_detail
    then unchanged
    else updated (outcome_row target cumulative detail observed current)

-- `record_outcome`, for a target that is a venue outcome.
unfoldable pub outcome_change :
    ActionState → Option DecimalText → Option Text → ℕ → ActionRecord → Result JournalError Change
outcome_change target filled_size detail observed current = do
  cumulative ← cumulative_or_current filled_size current
  validate_cumulative current cumulative
  validate_outcome current target cumulative
  ok (observed_change target cumulative detail observed current)

-- The state after a fill that leaves part of the size open: a settled row becomes a partial fill.
abbrev pub state_after_partial : ActionState → ActionState
state_after_partial rejected = partially_filled
state_after_partial canceled = partially_filled
state_after_partial s = s

abbrev settles_partial : ActionState → Bool
settles_partial rejected = true
settles_partial canceled = true
settles_partial partially_filled = true
settles_partial _ = false

-- The row that `record_cumulative_fill` writes.
abbrev pub fill_row : ℕ → ℕ → ActionRecord → ActionRecord
fill_row cumulative observed current =
    if cumulative == current.requested_size
    then record current {
      state = filled;
      cumulative_filled_size = cumulative;
      updated_ms = observed;
      terminal_ms = some (get_or current.terminal_ms observed);
    }
    else record current {
      state = state_after_partial current.state;
      cumulative_filled_size = cumulative;
      updated_ms = observed;
      terminal_ms =
          if settles_partial current.state
          then some (get_or current.terminal_ms observed)
          else current.terminal_ms;
    }

-- `record_cumulative_fill`
unfoldable pub fill_change : ℕ → ℕ → ActionRecord → Result JournalError Change
unfolding validate_cumulative
fill_change cumulative observed current = do
  validate_cumulative current cumulative
  if cumulative == current.cumulative_filled_size then ok unchanged else do
    require (is_some current.send_attempted_ms) fill_of_unsent
    ok (updated (fill_row cumulative observed current))

-- ===== src/Journal/Rows.antt =====
-- The invariant of one row of the table `actions`, and how the calls may change a row.
use hyperliquid_copytrader.Base.{ℕ, ◌≤◌, ◌<◌, ◌≡◌, Bool, true, false, Option, arith, is_some}
use hyperliquid_copytrader.Base.Text.{Text}
use hyperliquid_copytrader.Journal.States.{
  ActionState, prepared, send_attempted, not_sent, unknown, rejected, resting, partially_filled,
  filled, canceled, terminal_states,
}
use hyperliquid_copytrader.Journal.Records.{
  JournalError, ActionRecord, DecimalText, ok, err, Result,
}
use hyperliquid_copytrader.Journal.Changes.{
  Change, unchanged, updated, send_attempted_change, not_sent_change, outcome_change, fill_change,
  observed_change, validate_cumulative, validate_outcome, cumulative_or_current,
}

-- The fill that a row in the state may carry.
abbrev pub FillFits : ActionState → ℕ → ℕ → Type 0
FillFits prepared cumulative requested = cumulative ≡ 0
FillFits not_sent cumulative requested = cumulative ≡ 0
FillFits rejected cumulative requested = cumulative ≡ 0
FillFits canceled cumulative requested = cumulative ≡ 0
FillFits filled cumulative requested = cumulative ≡ requested
FillFits partially_filled cumulative requested = (0 < cumulative) × (cumulative < requested)
FillFits send_attempted cumulative requested = cumulative < requested
FillFits unknown cumulative requested = cumulative < requested
FillFits resting cumulative requested = cumulative < requested

-- The states behind the send boundary.
abbrev pub was_sent : ActionState → Bool
was_sent prepared = false
was_sent not_sent = false
was_sent _ = true

pub record RowIsValid (r : ActionRecord) : Type 0 where
  pub size_positive : 0 < r.requested_size
  pub nonce_positive : 0 < r.nonce
  pub attempt_positive : 0 < r.attempt_no
  pub expires_later : r.created_ms < r.expires_after_ms
  pub fill_fits : FillFits r.state r.cumulative_filled_size r.requested_size
  pub sent_time : is_some r.send_attempted_ms ≡ was_sent r.state
  pub end_time : is_some r.terminal_ms ≡ terminal_states r.state

-- What no call changes in a row, and what only grows.
pub record Evolves (r s : ActionRecord) : Type 0 where
  pub same_cloid : s.cloid ≡ r.cloid
  pub same_follower : s.follower_account ≡ r.follower_account
  pub same_wallet : s.api_wallet ≡ r.api_wallet
  pub same_desired : s.desired_id ≡ r.desired_id
  pub same_market : s.market ≡ r.market
  pub same_attempt : s.attempt_no ≡ r.attempt_no
  pub same_nonce : s.nonce ≡ r.nonce
  pub same_size : s.requested_size ≡ r.requested_size
  pub same_action : s.action_json ≡ r.action_json
  pub same_payload : s.signed_payload_json ≡ r.signed_payload_json
  pub fill_grows : r.cumulative_filled_size ≤ s.cumulative_filled_size
  pub stays_sent : was_sent r.state ≡ true → was_sent s.state ≡ true
  pub stays_terminal : terminal_states r.state ≡ true → terminal_states s.state ≡ true
  pub stays_unsent : r.state ≡ not_sent → s.state ≡ not_sent

pub Evolves-refl : (r : ActionRecord) → Evolves r r
Evolves-refl r = ground arith

pub Evolves-trans : (r s t : ActionRecord) → Evolves r s → Evolves s t → Evolves r t
Evolves-trans r s t h k = ground arith

-- The result of a change keeps the invariant and is a later state of the row.
abbrev pub Keeps : ActionRecord → Result JournalError Change → Type 0
Keeps r (err e) = Unit
Keeps r (ok unchanged) = Unit
Keeps r (ok (updated s)) = RowIsValid s × Evolves r s

pub send_attempted_change-Keeps :
    (request_id : Option Text) (observed : ℕ) (r : ActionRecord)
    → RowIsValid r
    → Keeps r (send_attempted_change request_id observed r)
unfolding send_attempted_change
send_attempted_change-Keeps request_id observed r v = ground arith

pub not_sent_change-Keeps :
    (observed : ℕ) (r : ActionRecord) → RowIsValid r → Keeps r (not_sent_change observed r)
unfolding not_sent_change
not_sent_change-Keeps observed r v = ground arith

pub fill_change-Keeps :
    (cumulative observed : ℕ) (r : ActionRecord)
    → RowIsValid r
    → Keeps r (fill_change cumulative observed r)
unfolding fill_change
fill_change-Keeps cumulative observed r v = ground arith

pub outcome_change-Keeps :
    (target : ActionState) (filled_size : Option DecimalText) (detail : Option Text) (observed : ℕ)
    (r : ActionRecord)
    → RowIsValid r
    → Keeps r (outcome_change target filled_size detail observed r)
unfolding outcome_change observed_change validate_cumulative validate_outcome cumulative_or_current
outcome_change-Keeps target filled_size detail observed r v = ground arith

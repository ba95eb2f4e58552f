-- ===== src/Journal/Outcomes.antt =====
-- `record_outcome`: what it writes, and that an outcome which is repeated changes nothing.
use hyperliquid_copytrader.Base.{
  ℕ, ◌≤◌, ◌<◌, ◌≡◌, refl, ap, subst, true, Option, none, some, arith, get_or,
}
use hyperliquid_copytrader.Base.Text.{Text, text_eq_iff, text_eq_refl}
use hyperliquid_copytrader.Journal.States.{ActionState, venue_outcomes, state_eq-eq, allowed}
use hyperliquid_copytrader.Journal.Records.{
  JournalError, >>=-returns, require-ok, ActionRecord, DecimalText, Result, ok, err, ◌>>=◌,
  positive_int, require, not_a_venue_outcome, normalized_detail, validate_cloid, invalid_transition,
}
use hyperliquid_copytrader.Journal.Changes.{
  Change, unchanged, outcome_change, detail_eq, observed_change, cumulative_or_current,
  validate_fill, validate_cumulative, validate_outcome,
}
use hyperliquid_copytrader.Journal.Rows.{RowIsValid, FillFits, outcome_change-Keeps}
use hyperliquid_copytrader.Journal.Store.{
  Journal, find_action, require_action, change_action, commit, record_outcome,
}
use hyperliquid_copytrader.Journal.Invariant.{JournalIsValid, Written}
use hyperliquid_copytrader.Journal.Table.{find_action-All}
use hyperliquid_copytrader.Journal.Sends.{Opened, change_action-Wrote}

detail_eq_refl : (d : Option Text) → detail_eq d d ≡ true
detail_eq_refl none = refl
detail_eq_refl (some t) = text_eq_refl t

detail_eq-eq : (d e : Option Text) → detail_eq d e ≡ true → d ≡ e
detail_eq-eq none none h = refl
detail_eq-eq none (some t) h = cc
detail_eq-eq (some s) none h = cc
detail_eq-eq (some s) (some t) h = ground (arith, text_eq_iff s t)

-- What `record_outcome` leaves in the row that it writes.
pub record OutcomeMoves (target : ActionState) (filled_size : Option DecimalText)
    (detail : Option Text) (r s : ActionRecord) : Type 0 where
  pub permitted : allowed r.state target ≡ true
  pub reached : s.state ≡ target
  pub detailed : s.outcome_detail ≡ detail
  pub observed : cumulative_or_current filled_size r ≡ ok s.cumulative_filled_size
  pub rises : r.cumulative_filled_size ≤ s.cumulative_filled_size
  pub within : s.cumulative_filled_size ≤ r.requested_size
  pub fits : validate_fill target s.cumulative_filled_size r.requested_size ≡ ok tt
  pub same_size : s.requested_size ≡ r.requested_size

Written->>= {ℓ} :
    {A : Type ℓ} (m : Result JournalError A) (f : A → Result JournalError Change)
    (r s : ActionRecord)
    → Written (m >>= f) r s
    → (a : A) × (m ≡ ok a) × Written (f a) r s
Written->>= (ok a) f r s w = (a, refl, w)
Written->>= (err e) f r s w = absurd w

validate_cumulative-ok :
    (r : ActionRecord) (n : ℕ)
    → validate_cumulative r n ≡ ok tt
    → (r.cumulative_filled_size ≤ n) × (n ≤ r.requested_size)
unfolding validate_cumulative
validate_cumulative-ok r n h = ground arith

validate_outcome-ok :
    (r : ActionRecord) (target : ActionState) (n : ℕ)
    → validate_outcome r target n ≡ ok tt
    → (allowed r.state target ≡ true) × (validate_fill target n r.requested_size ≡ ok tt)
unfolding validate_outcome
validate_outcome-ok r target n h =
    let (_, p, q) =
      >>=-returns (require (allowed r.state target) (invalid_transition r.state target)) _ h in
    (require-ok (allowed r.state target) _ p, q)

observed_change-row :
    (target : ActionState) (n : ℕ) (detail : Option Text) (t : ℕ) (r s : ActionRecord)
    → Written (ok (observed_change target n detail t r)) r s
    → (s.state ≡ target)
      × (s.outcome_detail ≡ detail)
      × (s.cumulative_filled_size ≡ n)
      × (s.requested_size ≡ r.requested_size)
unfolding observed_change
observed_change-row target n detail t r s w =
    ground (arith, detail_eq-eq detail r.outcome_detail, state_eq-eq target r.state)

outcome_change-OutcomeMoves :
    (target : ActionState) (filled_size : Option DecimalText) (detail : Option Text) (t : ℕ)
    (r s : ActionRecord)
    → Written (outcome_change target filled_size detail t r) r s
    → OutcomeMoves target filled_size detail r s
unfolding outcome_change
outcome_change-OutcomeMoves target filled_size detail t r s w =
    let (n, a, w₁) = Written->>= (cumulative_or_current filled_size r) _ r s w in
    let (_, b, w₂) = Written->>= (validate_cumulative r n) _ r s w₁ in
    let (_, c, w₃) = Written->>= (validate_outcome r target n) _ r s w₂ in
    let (low, high) = validate_cumulative-ok r n b in
    let (permitted, fits) = validate_outcome-ok r target n c in
    let (reached, detailed, counted, same) = observed_change-row target n detail t r s w₃ in
    record {
      permitted = permitted;
      reached = reached;
      detailed = detailed;
      observed = rw counted a;
      rises = omega arith;
      within = omega arith;
      fits = rw counted fits;
      same_size = same;
    }

cumulative_or_current-again :
    (filled_size : Option DecimalText) (r s : ActionRecord)
    → cumulative_or_current filled_size r ≡ ok s.cumulative_filled_size
    → cumulative_or_current filled_size s ≡ ok s.cumulative_filled_size
unfolding cumulative_or_current
cumulative_or_current-again none r s h = refl
cumulative_or_current-again (some d) r s h = h

allowed_again : (target : ActionState) → venue_outcomes target ≡ true → allowed target target ≡ true
allowed_again target h = ground arith

validate_cumulative-again :
    (s : ActionRecord)
    → s.cumulative_filled_size ≤ s.requested_size
    → validate_cumulative s s.cumulative_filled_size ≡ ok tt
unfolding validate_cumulative
validate_cumulative-again s h = ground arith

validate_outcome-again :
    (s : ActionRecord) (target : ActionState) (n : ℕ)
    → allowed s.state target ≡ true
    → validate_fill target n s.requested_size ≡ ok tt
    → validate_outcome s target n ≡ ok tt
unfolding validate_outcome
validate_outcome-again s target n h k = rw h k

observed_change-again :
    (s : ActionRecord) (t : ℕ)
    → observed_change s.state s.cumulative_filled_size s.outcome_detail t s ≡ unchanged
unfolding observed_change
observed_change-again s t = ground (arith, detail_eq_refl s.outcome_detail)

-- The row that an outcome left takes the same outcome unchanged.
outcome_change-again :
    (target : ActionState) (filled_size : Option DecimalText) (detail : Option Text) (t : ℕ)
    (r s : ActionRecord)
    → venue_outcomes target ≡ true
    → OutcomeMoves target filled_size detail r s
    → outcome_change target filled_size detail t s ≡ ok unchanged
unfolding outcome_change
outcome_change-again target filled_size detail t r s o m =
    let permitted : allowed s.state target ≡ true = rw m.reached (allowed_again target o) in
    let fits = rw (← m.same_size) at m.fits in
    let within : s.cumulative_filled_size ≤ s.requested_size = omega arith in
    rw
      (
        cumulative_or_current-again filled_size r s m.observed,
        validate_cumulative-again s within,
        validate_outcome-again s target s.cumulative_filled_size permitted fits,
        ← m.reached,
        ← m.detailed,
      )
      (ap ok (observed_change-again s t))

pub unchanged_again :
    (c : Text) (f : ActionRecord → Result JournalError Change) (k : Journal) (s : ActionRecord)
    → find_action c k.actions ≡ some s
    → f s ≡ ok unchanged
    → change_action c f k ≡ ok (s, k)
unfolding change_action require_action commit
unchanged_again c f k s h e = rw (h, require_action) (rw e refl)

record_outcome-Opened :
    (now : ℕ) (cloid : Text) (target : ActionState) (filled_size : Option DecimalText)
    (detail : Option Text) (observed_ms : Option ℕ) (j : Journal) (q : ActionRecord × Journal)
    → record_outcome now cloid target filled_size detail observed_ms j ≡ ok q
    → (venue_outcomes target ≡ true)
      × Opened cloid
          (λ c (t : ℕ).
            change_action c (outcome_change target filled_size (normalized_detail detail) t) j)
          q
unfolding record_outcome
record_outcome-Opened now cloid target filled_size detail observed_ms j q h =
    let (c, e, h₁) = >>=-returns (validate_cloid cloid) _ h in
    let (_, o, h₂) =
      >>=-returns (require (venue_outcomes target) (not_a_venue_outcome target)) _ h₁ in
    let (t, _, h₃) = >>=-returns (positive_int (get_or observed_ms now)) _ h₂ in
    (ground arith, record { name = c; argument = t; name_read = e; ran = h₃ })

pub positive_int-ok : (n : ℕ) → 0 < n → positive_int n ≡ ok n
unfolding positive_int
positive_int-ok n h = ground arith

-- A venue outcome that a valid journal recorded can be recorded again, at any positive time: the journal and the
-- row stay as they are, so a replayed response is harmless.
pub record_outcome_idempotent :
    (now later : ℕ) (cloid : Text) (target : ActionState) (filled_size : Option DecimalText)
    (detail : Option Text) (observed_ms observed_ms' : Option ℕ) (j k : Journal) (s : ActionRecord)
    → JournalIsValid j
    → 0 < get_or observed_ms' later
    → record_outcome now cloid target filled_size detail observed_ms j ≡ ok (s, k)
    → record_outcome later cloid target filled_size detail observed_ms' k ≡ ok (s, k)
unfolding record_outcome
record_outcome_idempotent now later cloid target filled_size detail observed_ms observed_ms' j k s v
      p e =
    let (o, opened) =
      record_outcome-Opened now cloid target filled_size detail observed_ms j (s, k) e in
    let d = normalized_detail detail in
    let w =
      change_action-Wrote opened.name _ j s k v
        (outcome_change-Keeps target filled_size d opened.argument) opened.ran in
    let again = unchanged_again opened.name _ k s w.stored.2 (
      outcome_change-again target filled_size d (get_or observed_ms' later) w.before s o
        (outcome_change-OutcomeMoves target filled_size d opened.argument w.before s w.written)) in
    rw (opened.name_read, o, positive_int-ok (get_or observed_ms' later) p) again

-- In a valid journal a successful `record_outcome` was permitted from the state of the row, and
-- leaves the target state, the given detail and the observed fill, which is between the old fill
-- and the requested size and fits the target.
pub record_outcome-OutcomeMoves :
    (now : ℕ) (cloid : Text) (target : ActionState) (filled_size : Option DecimalText)
    (detail : Option Text) (observed_ms : Option ℕ) (j k : Journal) (s : ActionRecord) (c : Text)
    (r : ActionRecord)
    → JournalIsValid j
    → record_outcome now cloid target filled_size detail observed_ms j ≡ ok (s, k)
    → validate_cloid cloid ≡ ok c
    → find_action c j.actions ≡ some r
    → OutcomeMoves target filled_size (normalized_detail detail) r s
      × FillFits target s.cumulative_filled_size s.requested_size
      × (find_action c k.actions ≡ some s)
record_outcome-OutcomeMoves now cloid target filled_size detail observed_ms j k s c r v e dc h =
    let (o, opened) =
      record_outcome-Opened now cloid target filled_size detail observed_ms j (s, k) e in
    let d = normalized_detail detail in
    let w =
      change_action-Wrote opened.name _ j s k v
        (outcome_change-Keeps target filled_size d opened.argument) opened.ran in
    let m = outcome_change-OutcomeMoves target filled_size d opened.argument w.before s w.written in
    let same_name : opened.name ≡ c = ground (arith, opened.name_read) in
    let same_row : w.before ≡ r = ground (arith, w.found) in
    let ended =
      find_action-All RowIsValid opened.name s k.actions w.stored.0.rows_valid w.stored.2 in
    (
      subst (λ x. OutcomeMoves target filled_size d x s) same_row m,
      subst (λ t. FillFits t s.cumulative_filled_size s.requested_size) m.reached ended.fill_fits,
      rw (← same_name) w.stored.2,
    )

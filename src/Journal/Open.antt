-- ===== src/Journal/Open.antt =====
-- How many actions of a lane are open: only `prepare_action` adds one.
use hyperliquid_copytrader.Base.{
  ℕ, ◌+◌, ◌≤◌, ◌≡◌, refl, sym, subst, ◌∙◌, Bool, true, ◌&&◌, List, [], ◌∷◌, Option, some, arith,
  if◌then◌else◌, not, ◌==◌, get_or, inl, inr, Bool-cases, Option-cases,
}
use hyperliquid_copytrader.Base.Text.{Text, text_eq, text_eq_iff}
use hyperliquid_copytrader.Journal.States.{ActionState, venue_outcomes}
use hyperliquid_copytrader.Journal.Records.{
  JournalError, ActionRecord, DecimalText, Result, ok, err, ◌>>=◌, identity, positive_int, require,
  not_a_venue_outcome, nonnegative_decimal, normalized_detail, validate_cloid, recovery_required,
  stale_nonce, wrong_attempt, already_journaled,
}
use hyperliquid_copytrader.Journal.Changes.{Change, unchanged, updated}
use hyperliquid_copytrader.Journal.Rows.{
  RowIsValid, Evolves, Keeps, send_attempted_change-Keeps, not_sent_change-Keeps,
  outcome_change-Keeps, fill_change-Keeps,
}
use hyperliquid_copytrader.Journal.Table.{find_action-All, find_action-cloid, find_action_unique}
use hyperliquid_copytrader.Journal.Store.{
  Journal, PrepareRequest, in_lane, is_latest, nonce_of, last_attempt, any_collides, find_action,
  require_action, replace_action, prepared_row, insert_prepared, nonempty_option, commit,
  change_action, reserve_nonce, prepare_action, mark_send_attempted, mark_not_sent, record_outcome,
  record_cumulative_fill,
}
use hyperliquid_copytrader.Journal.Calls.{
  Call, reserves, prepares, attempts, gives_up, resolves, fills, after, step, run,
}
use hyperliquid_copytrader.Journal.Invariant.{JournalIsValid}
use hyperliquid_copytrader.Journal.History.{step-Sound}

abbrev pub row_is_open : Text → Text → ActionRecord → Bool
row_is_open follower wallet r = recovery_required r && in_lane follower wallet r

abbrev pub open_rows : Text → Text → List ActionRecord → ℕ
open_rows follower wallet [] = 0
open_rows follower wallet (r ∷ rs) =
    (if row_is_open follower wallet r then 1 else 0) + open_rows follower wallet rs

abbrev pub prepare_count : Call → ℕ
prepare_count (prepares q) = 1
prepare_count _ = 0

abbrev pub prepare_calls : List (ℕ × Call) → ℕ
prepare_calls [] = 0
prepare_calls ((now, c) ∷ cs) = prepare_count c + prepare_calls cs

module _ (follower wallet : Text) where
  abbrev weight : ActionRecord → ℕ
  weight r = if row_is_open follower wallet r then 1 else 0

  open_state :
      (r s : ActionRecord) → Evolves r s → recovery_required s ≡ true → recovery_required r ≡ true
  open_state r s e h = ground arith

  weight_falls : (r s : ActionRecord) → Evolves r s → weight s ≤ weight r
  weight_falls r s e =
      let state = open_state r s e in
      rw (e.same_follower, e.same_wallet)
        (elim (Bool-cases (in_lane follower wallet r)) [
          | inl own ↦ rw own (ground (arith, state))
          | inr other ↦ rw other (ground arith)
        ])

  replace-open_rows :
      (s : ActionRecord) (rs : List ActionRecord)
      → ((r : ActionRecord) → find_action s.cloid rs ≡ some r → Evolves r s)
      → open_rows follower wallet (replace_action s rs) ≤ open_rows follower wallet rs
  unfolding replace_action find_action
  replace-open_rows s [] h = omega arith
  replace-open_rows s (r ∷ rs) h = elim (Bool-cases (text_eq r.cloid s.cloid)) [
    | inl same ↦ rw same (omega (arith, weight_falls r s (h r (rw same refl))))
    | inr other ↦ rw other (omega (arith, replace-open_rows s rs (λ t e. h t (rw other e))))
  ]

  -- At most `n` more open rows after the call.
  record Adds {ℓ} {A : Type ℓ} (n : ℕ) (j : Journal) (res : Result JournalError (A × Journal))
      : Type 0 where
    adds : open_rows follower wallet (after j res).actions ≤ open_rows follower wallet j.actions + n

  Adds-bind {ℓ κ} :
      {X : Type ℓ} {A : Type κ} (n : ℕ) (j : Journal) (m : Result JournalError X)
      (f : X → Result JournalError (A × Journal))
      → ((x : X) → Adds n j (f x))
      → Adds n j (m >>= f)
  Adds-bind n j (ok x) f h = h x
  Adds-bind n j (err e) f h = record { adds = omega arith }

  Adds-then {ℓ} :
      {A : Type ℓ} (n : ℕ) (j k : Journal) (m : Result JournalError A)
      → open_rows follower wallet k.actions ≤ open_rows follower wallet j.actions + n
      → Adds n j (m >>= λ a. ok (a, k))
  Adds-then n j k (ok a) h = record { adds = h }
  Adds-then n j k (err e) h = record { adds = omega arith }

  module _ (j : Journal) (v : JournalIsValid j) where
    commit-Adds :
        (cloid : Text) (r : ActionRecord) (change : Result JournalError Change)
        → find_action cloid j.actions ≡ some r
        → Keeps r change
        → Adds 0 j (change >>= λ c. commit cloid r c j)
    unfolding commit
    commit-Adds cloid r (err e) h k = record { adds = omega arith }
    commit-Adds cloid r (ok unchanged) h k = record { adds = omega arith }
    commit-Adds cloid r (ok (updated s)) h (w, e) =
        let named = e.same_cloid ∙ find_action-cloid cloid r j.actions h in
        let same = (text_eq_iff s.cloid cloid).1 named in
        Adds-then 0 j (record j { actions = replace_action s j.actions }) (require_action cloid _)
          (omega (
            arith,
            replace-open_rows s j.actions (λ t f.
                subst (λ x. Evolves x s)
                  (sym (find_action_unique s.cloid cloid t r j.actions same f h)) e),
          ))

    change_action-Adds :
        (cloid : Text) (f : ActionRecord → Result JournalError Change)
        → ((r : ActionRecord) → RowIsValid r → Keeps r (f r))
        → Adds 0 j (change_action cloid f j)
    unfolding change_action require_action
    change_action-Adds cloid f keeps = elim (Option-cases (find_action cloid j.actions)) [
      | inl e ↦ rw (e, change_action, require_action) (record { adds = omega arith })
      | inr (r, e) ↦
          rw (e, change_action, require_action)
            (commit-Adds cloid r (f r) e
              (keeps r (find_action-All RowIsValid cloid r j.actions v.rows_valid e)))
    ]

    reserve_nonce-Adds :
        (now : ℕ) (account api : Text) (wall_ms : Option ℕ)
        → Adds 0 j (reserve_nonce now account api wall_ms j)
    unfolding reserve_nonce
    reserve_nonce-Adds now account api wall_ms = Adds-bind 0 j (identity account) _ λ f.
        Adds-bind 0 j (identity api) _ λ w.
          Adds-bind 0 j (positive_int (get_or wall_ms now)) _ λ c. record { adds = omega arith }

    insert_prepared-Adds : (r : ActionRecord) → Adds 1 j (insert_prepared r j)
    unfolding insert_prepared
    insert_prepared-Adds r =
        let expected =
          last_attempt r.follower_account r.api_wallet r.desired_id r.market j.actions + 1 in
        let k : Journal = record j { actions = r ∷ j.actions } in
        Adds-bind 1 j
          (require (is_latest (nonce_of r.follower_account r.api_wallet j.signer_nonce) r.nonce)
            stale_nonce)
          _
          λ a. Adds-bind 1 j (require (r.attempt_no == expected) (wrong_attempt expected)) _ λ b.
            Adds-bind 1 j (require (not (any_collides r j.actions)) already_journaled) _
              λ c. Adds-then 1 j k (require_action r.cloid k) (ground arith)

    prepare_action-Adds : (now : ℕ) (q : PrepareRequest) → Adds 1 j (prepare_action now q j)
    unfolding prepare_action
    prepare_action-Adds now q = Adds-bind 1 j (prepared_row now q) _ insert_prepared-Adds

    mark_send_attempted-Adds :
        (now : ℕ) (cloid : Text) (request_id : Option Text) (observed_ms : Option ℕ)
        → Adds 0 j (mark_send_attempted now cloid request_id observed_ms j)
    unfolding mark_send_attempted
    mark_send_attempted-Adds now cloid request_id observed_ms =
        Adds-bind 0 j (validate_cloid cloid) _ λ c.
          Adds-bind 0 j (positive_int (get_or observed_ms now)) _ λ t.
            Adds-bind 0 j (nonempty_option request_id) _
              λ id. change_action-Adds c _ (send_attempted_change-Keeps id t)

    mark_not_sent-Adds :
        (now : ℕ) (cloid : Text) (observed_ms : Option ℕ)
        → Adds 0 j (mark_not_sent now cloid observed_ms j)
    unfolding mark_not_sent
    mark_not_sent-Adds now cloid observed_ms = Adds-bind 0 j (validate_cloid cloid) _ λ c.
        Adds-bind 0 j (positive_int (get_or observed_ms now)) _
          λ t. change_action-Adds c _ (not_sent_change-Keeps t)

    record_outcome-Adds :
        (now : ℕ) (cloid : Text) (target : ActionState) (filled_size : Option DecimalText)
        (detail : Option Text) (observed_ms : Option ℕ)
        → Adds 0 j (record_outcome now cloid target filled_size detail observed_ms j)
    unfolding record_outcome
    record_outcome-Adds now cloid target filled_size detail observed_ms =
        Adds-bind 0 j (validate_cloid cloid) _ λ c.
          Adds-bind 0 j (require (venue_outcomes target) (not_a_venue_outcome target)) _ λ u.
            Adds-bind 0 j (positive_int (get_or observed_ms now)) _ λ t.
              change_action-Adds c _
                (outcome_change-Keeps target filled_size (normalized_detail detail) t)

    record_cumulative_fill-Adds :
        (now : ℕ) (cloid : Text) (filled_size : DecimalText) (observed_ms : Option ℕ)
        → Adds 0 j (record_cumulative_fill now cloid filled_size observed_ms j)
    unfolding record_cumulative_fill
    record_cumulative_fill-Adds now cloid filled_size observed_ms =
        Adds-bind 0 j (validate_cloid cloid) _ λ c.
          Adds-bind 0 j (nonnegative_decimal filled_size) _ λ n.
            Adds-bind 0 j (positive_int (get_or observed_ms now)) _
              λ t. change_action-Adds c _ (fill_change-Keeps n t)

    step_adds :
        (now : ℕ) (c : Call)
        → open_rows follower wallet (step (now, c) j).actions
          ≤ open_rows follower wallet j.actions + prepare_count c
    unfolding step
    step_adds now (reserves account api wall_ms) = (reserve_nonce-Adds now account api wall_ms).adds
    step_adds now (prepares q) = (prepare_action-Adds now q).adds
    step_adds now (attempts cloid request_id observed_ms) =
        (mark_send_attempted-Adds now cloid request_id observed_ms).adds
    step_adds now (gives_up cloid observed_ms) = (mark_not_sent-Adds now cloid observed_ms).adds
    step_adds now (resolves cloid target filled_size detail observed_ms) =
        (record_outcome-Adds now cloid target filled_size detail observed_ms).adds
    step_adds now (fills cloid filled_size observed_ms) =
        (record_cumulative_fill-Adds now cloid filled_size observed_ms).adds

  -- A history adds at most as many open rows to a lane as it prepares actions.
  pub run_adds :
      (cs : List (ℕ × Call)) (j : Journal)
      → JournalIsValid j
      → open_rows follower wallet (run cs j).actions
        ≤ open_rows follower wallet j.actions + prepare_calls cs
  unfolding run
  run_adds [] j v = omega arith
  run_adds ((now, c) ∷ cs) j v =
      omega (arith, step_adds j v now c, run_adds cs (step (now, c) j) (step-Sound j v now c).0)

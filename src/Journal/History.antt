-- ===== src/Journal/History.antt =====
-- The journal over a whole history of calls.
use hyperliquid_copytrader.Base.{ℕ, ◌≡◌, refl, List, [], ◌∷◌, Option, some, get_or}
use hyperliquid_copytrader.Base.Text.{Text}
use hyperliquid_copytrader.Journal.States.{ActionState, venue_outcomes}
use hyperliquid_copytrader.Journal.Records.{
  JournalError, ActionRecord, DecimalText, Result, ok, err, ◌>>=◌, identity, positive_int, require,
  not_a_venue_outcome, nonnegative_decimal, normalized_detail, validate_cloid,
}
use hyperliquid_copytrader.Journal.Changes.{Change}
use hyperliquid_copytrader.Journal.Rows.{
  RowIsValid, Evolves, Keeps, send_attempted_change-Keeps, not_sent_change-Keeps,
  outcome_change-Keeps, fill_change-Keeps,
}
use hyperliquid_copytrader.Journal.Store.{
  Journal, empty_journal, PrepareRequest, nonce_of, next_nonce, upsert_nonce, reserved_row,
  find_action, prepared_row, insert_prepared, nonempty_option, change_action, reserve_nonce,
  prepare_action, mark_send_attempted, mark_not_sent, record_outcome, record_cumulative_fill,
}
use hyperliquid_copytrader.Journal.Calls.{
  Call, reserves, prepares, attempts, gives_up, resolves, fills, after, step, run,
}
use hyperliquid_copytrader.Journal.Invariant.{
  JournalIsValid, Grows, Grows-refl, Grows-trans, Ensures, Stored, empty-JournalIsValid,
  change_action-Stored,
}
use hyperliquid_copytrader.Journal.Preserve.{
  next_nonce_bounds, upsert-JournalIsValid, upsert-Grows, prepared_row-RowIsValid,
  insert_prepared-Stored,
}

-- The journal after a call is valid and has only grown.
pub record Sound {ℓ} {A : Type ℓ} (j : Journal) (res : Result JournalError (A × Journal))
    : Type 0 where
  pub valid : JournalIsValid (after j res)
  pub grows : Grows j (after j res)

module _ (j : Journal) (v : JournalIsValid j) where
  Sound-bind {ℓ κ} :
      {X : Type ℓ} {A : Type κ} (m : Result JournalError X)
      (f : X → Result JournalError (A × Journal))
      → ((x : X) → Sound j (f x))
      → Sound j (m >>= f)
  Sound-bind (ok x) f h = h x
  Sound-bind (err e) f h = record { valid = v; grows = Grows-refl j }

  Stored-Sound :
      (cloid : Text) (res : Result JournalError (ActionRecord × Journal))
      → Ensures (Stored cloid j) res
      → Sound j res
  Stored-Sound cloid (ok (r, k)) h = record { valid = h.0; grows = h.1 }
  Stored-Sound cloid (err e) h = record { valid = v; grows = Grows-refl j }

  change_action-Sound :
      (cloid : Text) (f : ActionRecord → Result JournalError Change)
      → ((r : ActionRecord) → RowIsValid r → Keeps r (f r))
      → Sound j (change_action cloid f j)
  change_action-Sound cloid f keeps = Stored-Sound cloid _ (change_action-Stored j v cloid f keeps)

  prepare_action-Sound : (now : ℕ) (q : PrepareRequest) → Sound j (prepare_action now q j)
  unfolding prepare_action
  prepare_action-Sound now q = go (prepared_row now q) refl
    where
      go :
          (res : Result JournalError ActionRecord)
          → prepared_row now q ≡ res
          → Sound j (res >>= λ r. insert_prepared r j)
      go (ok r) e =
          Stored-Sound r.cloid _ (insert_prepared-Stored r j (prepared_row-RowIsValid now q r e) v)
      go (err x) e = record { valid = v; grows = Grows-refl j }

  reserved-Sound :
      (now : ℕ) (follower wallet : Text) (candidate : ℕ)
      → Sound {A = ℕ} j (
          ok (
            next_nonce (nonce_of follower wallet j.signer_nonce) candidate,
            record j {
              signer_nonce =
                  upsert_nonce (reserved_row now follower wallet candidate j) j.signer_nonce;
            },
          ))
  unfolding reserved_row
  reserved-Sound now follower wallet candidate =
      let above = (next_nonce_bounds (nonce_of follower wallet j.signer_nonce) candidate).0 in
      record {
        valid = upsert-JournalIsValid j (reserved_row now follower wallet candidate j) above v;
        grows = upsert-Grows j (reserved_row now follower wallet candidate j) above;
      }

  reserve_nonce-Sound :
      (now : ℕ) (follower wallet : Text) (wall_ms : Option ℕ)
      → Sound j (reserve_nonce now follower wallet wall_ms j)
  unfolding reserve_nonce
  reserve_nonce-Sound now follower wallet wall_ms = Sound-bind (identity follower) _ λ f.
      Sound-bind (identity wallet) _ λ w.
        Sound-bind (positive_int (get_or wall_ms now)) _
          λ candidate. reserved-Sound now f w candidate

  mark_send_attempted-Sound :
      (now : ℕ) (cloid : Text) (request_id : Option Text) (observed_ms : Option ℕ)
      → Sound j (mark_send_attempted now cloid request_id observed_ms j)
  unfolding mark_send_attempted
  mark_send_attempted-Sound now cloid request_id observed_ms =
      Sound-bind (validate_cloid cloid) _ λ c.
        Sound-bind (positive_int (get_or observed_ms now)) _ λ t.
          Sound-bind (nonempty_option request_id) _
            λ id. change_action-Sound c _ (send_attempted_change-Keeps id t)

  mark_not_sent-Sound :
      (now : ℕ) (cloid : Text) (observed_ms : Option ℕ)
      → Sound j (mark_not_sent now cloid observed_ms j)
  unfolding mark_not_sent
  mark_not_sent-Sound now cloid observed_ms = Sound-bind (validate_cloid cloid) _ λ c.
      Sound-bind (positive_int (get_or observed_ms now)) _
        λ t. change_action-Sound c _ (not_sent_change-Keeps t)

  record_outcome-Sound :
      (now : ℕ) (cloid : Text) (target : ActionState) (filled_size : Option DecimalText)
      (detail : Option Text) (observed_ms : Option ℕ)
      → Sound j (record_outcome now cloid target filled_size detail observed_ms j)
  unfolding record_outcome
  record_outcome-Sound now cloid target filled_size detail observed_ms =
      Sound-bind (validate_cloid cloid) _ λ c.
        Sound-bind (require (venue_outcomes target) (not_a_venue_outcome target)) _ λ _.
          Sound-bind (positive_int (get_or observed_ms now)) _ λ t.
            change_action-Sound c _
              (outcome_change-Keeps target filled_size (normalized_detail detail) t)

  record_cumulative_fill-Sound :
      (now : ℕ) (cloid : Text) (filled_size : DecimalText) (observed_ms : Option ℕ)
      → Sound j (record_cumulative_fill now cloid filled_size observed_ms j)
  unfolding record_cumulative_fill
  record_cumulative_fill-Sound now cloid filled_size observed_ms =
      Sound-bind (validate_cloid cloid) _ λ c. Sound-bind (nonnegative_decimal filled_size) _ λ n.
        Sound-bind (positive_int (get_or observed_ms now)) _
          λ t. change_action-Sound c _ (fill_change-Keeps n t)

  parts {ℓ} :
      {A : Type ℓ} (res : Result JournalError (A × Journal))
      → Sound j res
      → JournalIsValid (after j res) × Grows j (after j res)
  parts res s = (s.valid, s.grows)

  -- Every call keeps the journal valid, and what it held is still there in a later state.
  pub step-Sound :
      (now : ℕ) (c : Call) → JournalIsValid (step (now, c) j) × Grows j (step (now, c) j)
  unfolding step
  step-Sound now (reserves follower wallet wall_ms) =
      parts _ (reserve_nonce-Sound now follower wallet wall_ms)
  step-Sound now (prepares q) = parts _ (prepare_action-Sound now q)
  step-Sound now (attempts cloid request_id observed_ms) =
      parts _ (mark_send_attempted-Sound now cloid request_id observed_ms)
  step-Sound now (gives_up cloid observed_ms) = parts _ (mark_not_sent-Sound now cloid observed_ms)
  step-Sound now (resolves cloid target filled_size detail observed_ms) =
      parts _ (record_outcome-Sound now cloid target filled_size detail observed_ms)
  step-Sound now (fills cloid filled_size observed_ms) =
      parts _ (record_cumulative_fill-Sound now cloid filled_size observed_ms)

pub run-Sound :
    (cs : List (ℕ × Call)) (j : Journal)
    → JournalIsValid j
    → JournalIsValid (run cs j) × Grows j (run cs j)
unfolding run
run-Sound [] j v = (v, Grows-refl j)
run-Sound ((now, c) ∷ cs) j v =
    let (w, g) = step-Sound j v now c in
    let (u, h) = run-Sound cs (step (now, c) j) w in
    (u, Grows-trans j (step (now, c) j) (run cs (step (now, c) j)) g h)

pub run-JournalIsValid : (cs : List (ℕ × Call)) → JournalIsValid (run cs empty_journal)
run-JournalIsValid cs = (run-Sound cs empty_journal empty-JournalIsValid).0

-- An action that a valid journal holds is never lost: after any history it is found under its
-- CLOID with the same lane, target, attempt, nonce, size and payloads; its cumulative fill has not
-- fallen, a sent action is not unsent again, and a settled one stays settled.
pub run-Evolves :
    (cs : List (ℕ × Call)) (j : Journal) (cloid : Text) (r : ActionRecord)
    → JournalIsValid j
    → find_action cloid j.actions ≡ some r
    → (s : ActionRecord) × (find_action cloid (run cs j).actions ≡ some s) × Evolves r s
run-Evolves cs j cloid r v h = (run-Sound cs j v).1.keeps_actions cloid r h

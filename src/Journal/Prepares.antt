-- ===== src/Journal/Prepares.antt =====
-- `prepare_action`: the guards that it passes and the row that it leaves.
use hyperliquid_copytrader.Base.{ℕ, ◌+◌, ◌≡◌, refl, true, false, ◌∷◌, Option, none, some, arith}
use hyperliquid_copytrader.Base.Text.{Text, text_eq, text_eq_refl}
use hyperliquid_copytrader.Journal.States.{prepared}
use hyperliquid_copytrader.Journal.Records.{>>=-returns, ActionRecord, ok}
use hyperliquid_copytrader.Journal.Table.{find_action_fresh}
use hyperliquid_copytrader.Journal.Store.{
  Journal, PrepareRequest, nonce_of, last_attempt, prepared_row, insert_prepared, prepare_action,
  find_action, require_action, any_collides, is_latest,
}

-- What `prepare_action` promises of the row that it returns and of the journal that it leaves.
pub record Prepares (r : ActionRecord) (j k : Journal) : Type 0 where
  pub is_prepared : r.state ≡ prepared
  pub unfilled : r.cumulative_filled_size ≡ 0
  pub latest_nonce : nonce_of r.follower_account r.api_wallet j.signer_nonce ≡ some r.nonce
  pub next_attempt :
      r.attempt_no
      ≡ last_attempt r.follower_account r.api_wallet r.desired_id r.market j.actions + 1
  pub counted :
      last_attempt r.follower_account r.api_wallet r.desired_id r.market k.actions ≡ r.attempt_no
  pub new_name : find_action r.cloid j.actions ≡ none
  pub read_back : find_action r.cloid k.actions ≡ some r
  pub others :
      (cloid : Text)
      → text_eq r.cloid cloid ≡ false
      → find_action cloid k.actions ≡ find_action cloid j.actions
  pub same_nonces : k.signer_nonce ≡ j.signer_nonce

is_latest-eq : (o : Option ℕ) (n : ℕ) → is_latest o n ≡ true → o ≡ some n
is_latest-eq none n h = cc
is_latest-eq (some m) n h = ground arith

prepared_row-prepared :
    (now : ℕ) (q : PrepareRequest) (r : ActionRecord)
    → prepared_row now q ≡ ok r
    → (r.state ≡ prepared) × (r.cumulative_filled_size ≡ 0)
unfolding prepared_row
prepared_row-prepared now q r h = ground arith

module _ (r : ActionRecord) (j : Journal) where
  abbrev extended : Journal
  extended = record j { actions = r ∷ j.actions }

  abbrev attempts_so_far : ℕ
  attempts_so_far = last_attempt r.follower_account r.api_wallet r.desired_id r.market j.actions

  extended-counted :
      r.attempt_no ≡ attempts_so_far + 1
      → last_attempt r.follower_account r.api_wallet r.desired_id r.market extended.actions
        ≡ r.attempt_no
  unfolding last_attempt
  extended-counted h =
      rw
        (
          text_eq_refl r.follower_account,
          text_eq_refl r.api_wallet,
          text_eq_refl r.desired_id,
          text_eq_refl r.market,
        )
        (omega arith)

  extended-found : find_action r.cloid extended.actions ≡ some r
  unfolding find_action
  extended-found = rw (text_eq_refl r.cloid)

  extended-others :
      (cloid : Text)
      → text_eq r.cloid cloid ≡ false
      → find_action cloid extended.actions ≡ find_action cloid j.actions
  unfolding find_action
  extended-others cloid h = rw h

  -- The guards that an insertion has passed, and what it returns.
  insert_prepared-passed :
      (s : ActionRecord) (k : Journal)
      → insert_prepared r j ≡ ok (s, k)
      → (is_latest (nonce_of r.follower_account r.api_wallet j.signer_nonce) r.nonce ≡ true)
        × (r.attempt_no ≡ attempts_so_far + 1)
        × (any_collides r j.actions ≡ false)
        × (s ≡ r)
        × (k ≡ extended)
  unfolding insert_prepared require_action
  insert_prepared-passed s k h = ground (arith, extended-found)

  insert_prepared-Prepares :
      (s : ActionRecord) (k : Journal)
      → r.state ≡ prepared
      → r.cumulative_filled_size ≡ 0
      → insert_prepared r j ≡ ok (s, k)
      → Prepares s j k
  insert_prepared-Prepares s k p z h =
      let (latest, attempt, fresh, es, ek) = insert_prepared-passed s k h in
      rw (es, ek)
        (record {
          is_prepared = p;
          unfilled = z;
          latest_nonce = is_latest-eq _ r.nonce latest;
          next_attempt = attempt;
          counted = extended-counted attempt;
          new_name = find_action_fresh r r.cloid j.actions fresh (text_eq_refl r.cloid);
          read_back = extended-found;
          others = extended-others;
          same_nonces = refl;
        })

-- A successful `prepare_action` returns a PREPARED row with no fill, under the lane's latest
-- nonce, the next attempt at its target and a CLOID that was free; the row is read back under its
-- CLOID, its attempt is now the last one, and no other row and no nonce changes.
pub prepare_action-Prepares :
    (now : ℕ) (q : PrepareRequest) (j k : Journal) (r : ActionRecord)
    → prepare_action now q j ≡ ok (r, k)
    → Prepares r j k
unfolding prepare_action
prepare_action-Prepares now q j k r h =
    let (s, e, h₁) = >>=-returns (prepared_row now q) _ h in
    let (p, z) = prepared_row-prepared now q s e in insert_prepared-Prepares s j r k p z h₁

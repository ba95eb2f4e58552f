-- ===== src/Journal/Preserve.antt =====
-- `reserve_nonce` and `prepare_action` keep the invariant of the journal.
use hyperliquid_copytrader.Base.{
  ℕ, ◌≤◌, ◌≡◌, refl, true, false, ◌∷◌, Option, none, some, arith, All-map_imp, inl, inr, Bool-cases,
  Option-cases,
}
use hyperliquid_copytrader.Base.Text.{Text, text_eq, text_eq_iff, text_eq_refl}
use hyperliquid_copytrader.Journal.Records.{ActionRecord, ok, positive_int, positive_decimal}
use hyperliquid_copytrader.Journal.Rows.{RowIsValid, Evolves-refl}
use hyperliquid_copytrader.Journal.Table.{nonce_of-upsert_nonce, find_action_fresh}
use hyperliquid_copytrader.Journal.Store.{
  NonceRow, Journal, nonce_of, upsert_nonce, next_nonce, find_action, require_action, any_collides,
  insert_prepared, prepared_row, PrepareRequest, owns_nonce,
}
use hyperliquid_copytrader.Journal.Invariant.{JournalIsValid, Grows, RowReserved, Ensures, Stored}

abbrev pub Below : Option ℕ → ℕ → Type 0
Below none n = Unit
Below (some m) n = m ≤ n

pub next_nonce_bounds :
    (last : Option ℕ) (candidate : ℕ)
    → Below last (next_nonce last candidate) × (candidate ≤ next_nonce last candidate)
next_nonce_bounds none candidate = (tt, omega arith)
next_nonce_bounds (some last) candidate = omega arith

module _ (j : Journal) (row : NonceRow)
    (above : Below
      (nonce_of row.follower_account row.api_wallet j.signer_nonce)
      row.last_nonce) where
  owner-texts :
      (follower wallet : Text)
      → owns_nonce follower wallet row ≡ true
      → (row.follower_account ≡ follower) × (row.api_wallet ≡ wallet)
  owner-texts follower wallet h =
      ground (arith, text_eq_iff row.follower_account follower, text_eq_iff row.api_wallet wallet)

  upsert-keeps :
      (follower wallet : Text) (n : ℕ)
      → nonce_of follower wallet j.signer_nonce ≡ some n
      → (m : ℕ) × (nonce_of follower wallet (upsert_nonce row j.signer_nonce) ≡ some m) × (n ≤ m)
  upsert-keeps follower wallet n h = elim (Bool-cases (owns_nonce follower wallet row)) [
    | inl own ↦ (
      row.last_nonce,
      rw (nonce_of-upsert_nonce follower wallet row j.signer_nonce, own) refl,
      ground (arith, owner-texts follower wallet own),
    )
    | inr other ↦
        (n, rw (nonce_of-upsert_nonce follower wallet row j.signer_nonce, other) h, omega arith)
  ]

  upsert-RowReserved :
      (r : ActionRecord)
      → RowReserved j.signer_nonce r
      → RowReserved (upsert_nonce row j.signer_nonce) r
  upsert-RowReserved r h =
      elim (Option-cases (nonce_of r.follower_account r.api_wallet j.signer_nonce)) [
        | inl e ↦ absurd (rw e at h)
        | inr (n, e) ↦
            let (m, f, le) = upsert-keeps r.follower_account r.api_wallet n e in
            let below : r.nonce ≤ n = rw e at h in rw f (omega arith)
      ]

  pub upsert-JournalIsValid :
      JournalIsValid j
      → JournalIsValid (record j { signer_nonce = upsert_nonce row j.signer_nonce })
  upsert-JournalIsValid v = record {
    rows_valid = v.rows_valid;
    distinct = v.distinct;
    reserved = All-map_imp upsert-RowReserved j.actions v.reserved;
  }

  pub upsert-Grows : Grows j (record j { signer_nonce = upsert_nonce row j.signer_nonce })
  upsert-Grows = record {
    keeps_actions = λ cloid r h. (r, h, Evolves-refl r);
    keeps_nonces = upsert-keeps;
  }

pub prepared_row-RowIsValid :
    (now : ℕ) (q : PrepareRequest) (r : ActionRecord) → prepared_row now q ≡ ok r → RowIsValid r
unfolding prepared_row positive_int positive_decimal
prepared_row-RowIsValid now q r h = ground arith

module _ (r : ActionRecord) (j : Journal) (w : RowIsValid r) (v : JournalIsValid j) where
  abbrev with_row : Journal
  with_row = record j { actions = r ∷ j.actions }

  with_row-finds : find_action r.cloid with_row.actions ≡ some r
  unfolding find_action
  with_row-finds = rw (text_eq_refl r.cloid)

  with_row-Grows : any_collides r j.actions ≡ false → Grows j with_row
  unfolding find_action
  with_row-Grows fresh = record {
    keeps_actions = λ cloid x h. elim (Bool-cases (text_eq r.cloid cloid)) [
      | inl same ↦ absurd (cc (find_action_fresh r cloid j.actions fresh same))
      | inr other ↦ (x, rw other h, Evolves-refl x)
    ];
    keeps_nonces = λ follower wallet n h. (n, h, omega arith);
  }

  with_row-Stored :
      RowReserved j.signer_nonce r → any_collides r j.actions ≡ false → Stored r.cloid j r with_row
  with_row-Stored held fresh = (
    record {
      rows_valid = (w, v.rows_valid);
      distinct = (fresh, v.distinct);
      reserved = (held, v.reserved);
    },
    with_row-Grows fresh,
    with_row-finds,
  )

  -- The insertion goes through only with the lane's newest nonce and under keys that no row holds.
  pub insert_prepared-Stored : Ensures (Stored r.cloid j) (insert_prepared r j)
  unfolding insert_prepared require_action
  insert_prepared-Stored = ground (arith, with_row-Stored, with_row-finds)

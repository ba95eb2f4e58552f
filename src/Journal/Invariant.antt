-- ===== src/Journal/Invariant.antt =====
-- The invariant of the whole journal, kept by every call, and what only grows.
use hyperliquid_copytrader.Base.{
  ℕ, ◌≤◌, ◌≡◌, refl, sym, ◌∙◌, subst, List, Option, none, some, arith, All, inl, inr, Bool-cases,
  Option-cases,
}
use hyperliquid_copytrader.Base.Text.{Text, text_eq, text_eq_iff}
use hyperliquid_copytrader.Journal.Records.{JournalError, ActionRecord, Result, ok, err, ◌>>=◌}
use hyperliquid_copytrader.Journal.Changes.{Change, unchanged, updated}
use hyperliquid_copytrader.Journal.Rows.{RowIsValid, Evolves, Evolves-refl, Evolves-trans, Keeps}
use hyperliquid_copytrader.Journal.Table.{
  find_action-cloid, find_action_unique, find_action-All, find_action-replace, All-replace,
  Distinct, Distinct-replace,
}
use hyperliquid_copytrader.Journal.Store.{
  NonceRow, Journal, empty_journal, nonce_of, find_action, require_action, replace_action, commit,
  change_action,
}

-- The lane of the row has reserved its nonce.
abbrev pub Reserved : ℕ → Option ℕ → Type 0
Reserved nonce none = ⊥
Reserved nonce (some last) = nonce ≤ last

abbrev pub RowReserved : List NonceRow → ActionRecord → Type 0
RowReserved rows r = Reserved r.nonce (nonce_of r.follower_account r.api_wallet rows)

pub record JournalIsValid (j : Journal) : Type 0 where
  pub rows_valid : All RowIsValid j.actions
  pub distinct : Distinct j.actions
  pub reserved : All (RowReserved j.signer_nonce) j.actions

-- A row that a look-up finds is found later too, in a later state; a lane's nonce only rises.
pub record Grows (j k : Journal) : Type 0 where
  pub keeps_actions :
      (cloid : Text) (r : ActionRecord)
      → find_action cloid j.actions ≡ some r
      → (s : ActionRecord) × (find_action cloid k.actions ≡ some s) × Evolves r s
  pub keeps_nonces :
      (follower wallet : Text) (n : ℕ)
      → nonce_of follower wallet j.signer_nonce ≡ some n
      → (m : ℕ) × (nonce_of follower wallet k.signer_nonce ≡ some m) × (n ≤ m)

pub Grows-refl : (j : Journal) → Grows j j
Grows-refl j = record {
  keeps_actions = λ cloid r h. (r, h, Evolves-refl r);
  keeps_nonces = λ follower wallet n h. (n, h, omega arith);
}

pub Grows-trans : (i j k : Journal) → Grows i j → Grows j k → Grows i k
Grows-trans i j k g h = record {
  keeps_actions = λ cloid r e.
      let (s, f, v) = g.keeps_actions cloid r e in
      let (t, f', w) = h.keeps_actions cloid s f in (t, f', Evolves-trans r s t v w);
  keeps_nonces = λ follower wallet n e.
      let (m, f, v) = g.keeps_nonces follower wallet n e in
      let (l, f', w) = h.keeps_nonces follower wallet m f in (l, f', omega arith);
}

pub empty-JournalIsValid : JournalIsValid empty_journal
empty-JournalIsValid = record { rows_valid = tt; distinct = tt; reserved = tt }

-- What a call ensures of the journal that it returns.
abbrev pub Ensures {ℓ κ} :
    {A : Type ℓ} → (A → Journal → Type κ) → Result JournalError (A × Journal) → Type κ
Ensures P (ok (a, j)) = P a j
Ensures P (err e) = Unit

abbrev pub Sound {ℓ} : {A : Type ℓ} → Journal → A → Journal → Type 0
Sound j a k = JournalIsValid k × Grows j k

-- The row that comes of a change of the row `r`.
abbrev pub Written : Result JournalError Change → ActionRecord → ActionRecord → Type 0
Written (ok unchanged) r s = s ≡ r
Written (ok (updated t)) r s = s ≡ t
Written (err e) r s = ⊥

-- The row that a call returns is the one that the journal now holds.
abbrev pub Stored : Text → Journal → ActionRecord → Journal → Type 0
Stored cloid j r k = JournalIsValid k × Grows j k × (find_action cloid k.actions ≡ some r)

module _ (j : Journal) (v : JournalIsValid j) where
  Reserved-Evolves :
      (r s : ActionRecord)
      → Evolves r s
      → RowReserved j.signer_nonce r
      → RowReserved j.signer_nonce s
  Reserved-Evolves r s e h = rw (e.same_nonce, e.same_follower, e.same_wallet) h

  replace-JournalIsValid :
      (r s : ActionRecord)
      → find_action s.cloid j.actions ≡ some r
      → RowIsValid s
      → Evolves r s
      → JournalIsValid (record j { actions = replace_action s j.actions })
  replace-JournalIsValid r s h w e = record {
    rows_valid = All-replace RowIsValid s j.actions w v.rows_valid;
    distinct = Distinct-replace r s j.actions h e v.distinct;
    reserved =
        All-replace (RowReserved j.signer_nonce) s j.actions
          (Reserved-Evolves r s e
            (find_action-All (RowReserved j.signer_nonce) s.cloid r j.actions v.reserved h))
          v.reserved;
  }

  replace-Grows :
      (r s : ActionRecord)
      → find_action s.cloid j.actions ≡ some r
      → Evolves r s
      → Grows j (record j { actions = replace_action s j.actions })
  replace-Grows r s h e = record {
    keeps_actions = λ cloid x f. elim (Bool-cases (text_eq s.cloid cloid)) [
      | inl same ↦ (
        s,
        rw (find_action-replace cloid s r j.actions h, same),
        subst (λ y. Evolves y s) (find_action_unique s.cloid cloid r x j.actions same h f) e,
      )
      | inr other ↦ (x, rw (find_action-replace cloid s r j.actions h, other) f, Evolves-refl x)
    ];
    keeps_nonces = λ follower wallet n f. (n, f, omega arith);
  }

  commit-Stored :
      (cloid : Text) (r : ActionRecord) (change : Change)
      → find_action cloid j.actions ≡ some r
      → Keeps r (ok change)
      → Ensures (Stored cloid j) (commit cloid r change j)
  unfolding commit require_action
  commit-Stored cloid r unchanged h k = (v, Grows-refl j, h)
  commit-Stored cloid r (updated s) h (w, e) =
      let named : s.cloid ≡ cloid = e.same_cloid ∙ find_action-cloid cloid r j.actions h in
      let found = subst (λ c. find_action c j.actions ≡ some r) (sym named) h in
      let again : find_action cloid (replace_action s j.actions) ≡ some s =
        rw (find_action-replace cloid s r j.actions found, (text_eq_iff s.cloid cloid).1 named)
          refl in
      rw (again, require_action)
        (replace-JournalIsValid r s found w e, replace-Grows r s found e, again)

  commit_result-Stored :
      (cloid : Text) (r : ActionRecord) (change : Result JournalError Change)
      → find_action cloid j.actions ≡ some r
      → Keeps r change
      → Ensures (Stored cloid j) (change >>= λ c. commit cloid r c j)
  commit_result-Stored cloid r (ok change) h k = commit-Stored cloid r change h k
  commit_result-Stored cloid r (err e) h k = tt

  -- A change that keeps its row keeps the journal.
  pub change_action-Stored :
      (cloid : Text) (f : ActionRecord → Result JournalError Change)
      → ((r : ActionRecord) → RowIsValid r → Keeps r (f r))
      → Ensures (Stored cloid j) (change_action cloid f j)
  unfolding change_action require_action
  change_action-Stored cloid f keeps = elim (Option-cases (find_action cloid j.actions)) [
    | inl e ↦ rw (e, change_action, require_action) tt
    | inr (r, e) ↦
        rw (e, change_action, require_action)
          (commit_result-Stored cloid r (f r) e
            (keeps r (find_action-All RowIsValid cloid r j.actions v.rows_valid e)))
  ]

  commit-Written :
      (cloid : Text) (r : ActionRecord) (f : ActionRecord → Result JournalError Change)
      (change : Result JournalError Change)
      → f r ≡ change
      → find_action cloid j.actions ≡ some r
      → RowIsValid r
      → Keeps r change
      → Ensures
          (λ s k. (x : ActionRecord) × (some r ≡ some x) × RowIsValid x × Written (f x) x s)
          (change >>= λ c. commit cloid r c j)
  unfolding commit require_action
  commit-Written cloid r f (ok unchanged) g h w k = (r, refl, w, rw g refl)
  commit-Written cloid r f (ok (updated s)) g h w (_, e) =
      let named : s.cloid ≡ cloid = e.same_cloid ∙ find_action-cloid cloid r j.actions h in
      let found = subst (λ c. find_action c j.actions ≡ some r) (sym named) h in
      let again : find_action cloid (replace_action s j.actions) ≡ some s =
        rw (find_action-replace cloid s r j.actions found, (text_eq_iff s.cloid cloid).1 named)
          refl in
      rw (again, require_action) (r, refl, w, rw g refl)
  commit-Written cloid r f (err e) g h w k = tt

  -- The row that the shared transaction returns is the change of the row that it read.
  pub change_action-Written :
      (cloid : Text) (f : ActionRecord → Result JournalError Change)
      → ((r : ActionRecord) → RowIsValid r → Keeps r (f r))
      → Ensures
          (λ s k.
            (r : ActionRecord) × (find_action cloid j.actions ≡ some r)
            × RowIsValid r
            × Written (f r) r s)
          (change_action cloid f j)
  unfolding change_action require_action
  change_action-Written cloid f keeps = elim (Option-cases (find_action cloid j.actions)) [
    | inl e ↦ rw (e, change_action, require_action) tt
    | inr (r, e) ↦
        let w = find_action-All RowIsValid cloid r j.actions v.rows_valid e in
        rw (e, change_action, require_action) (commit-Written cloid r f (f r) refl e w (keeps r w))
  ]

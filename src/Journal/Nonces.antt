-- ===== src/Journal/Nonces.antt =====
-- `reserve_nonce`: a reservation is above every nonce that its lane ever used.
use hyperliquid_copytrader.Base.{
  ℕ, ◌≤◌, ◌<◌, ◌≡◌, refl, true, false, List, Option, none, some, arith, get_or, All, All-map_imp,
  inl, inr, Option-cases,
}
use hyperliquid_copytrader.Base.Text.{Text, text_eq_iff, text_eq_refl}
use hyperliquid_copytrader.Journal.Records.{
  JournalError, >>=-returns, ActionRecord, Result, ok, positive_int, identity,
}
use hyperliquid_copytrader.Journal.Table.{nonce_of-upsert_nonce}
use hyperliquid_copytrader.Journal.Store.{
  Journal, in_lane, owns_nonce, nonce_of, next_nonce, upsert_nonce, reserved_row, reserve_nonce,
}
use hyperliquid_copytrader.Journal.Calls.{Call, run, step, reserves}
use hyperliquid_copytrader.Journal.Invariant.{JournalIsValid, RowReserved}
use hyperliquid_copytrader.Journal.Preserve.{next_nonce_bounds}
use hyperliquid_copytrader.Journal.History.{step-Sound, run-Sound}

-- What a reservation promises of its nonce and of the journal that it leaves.
pub record FreshNonce (follower wallet : Text) (wall_ms : ℕ) (j : Journal) (nonce : ℕ) (k : Journal)
    : Type 0 where
  pub at_least_clock : wall_ms ≤ nonce
  pub above_last : (last : ℕ) → nonce_of follower wallet j.signer_nonce ≡ some last → last < nonce
  pub durable : nonce_of follower wallet k.signer_nonce ≡ some nonce
  pub unused : All (λ r. in_lane follower wallet r ≡ true → r.nonce < nonce) j.actions
  pub other_lanes :
      (f w : Text)
      → owns_nonce f w (record {
        follower_account = follower;
        api_wallet = wallet;
        last_nonce = nonce;
        updated_ms = wall_ms;
      })
        ≡ false
      → nonce_of f w k.signer_nonce ≡ nonce_of f w j.signer_nonce
  pub same_actions : k.actions ≡ j.actions

next_nonce_above :
    (o : Option ℕ) (candidate last : ℕ) → o ≡ some last → last < next_nonce o candidate
next_nonce_above none candidate last h = cc
next_nonce_above (some m) candidate last h = ground arith

row_below :
    (follower wallet : Text) (candidate : ℕ) (j : Journal) (r : ActionRecord)
    → RowReserved j.signer_nonce r
    → in_lane follower wallet r ≡ true
    → r.nonce < next_nonce (nonce_of follower wallet j.signer_nonce) candidate
row_below follower wallet candidate j r h e =
    let fs : r.follower_account ≡ follower =
      ground (arith, text_eq_iff r.follower_account follower) in
    let ws : r.api_wallet ≡ wallet = ground (arith, text_eq_iff r.api_wallet wallet) in
    elim (Option-cases (nonce_of follower wallet j.signer_nonce)) [
      | inl o ↦ absurd (rw (fs, ws, o) at h)
      | inr (n, o) ↦
          let le : r.nonce ≤ n = rw (fs, ws, o) at h in
          let above = next_nonce_above (nonce_of follower wallet j.signer_nonce) candidate n o in
          omega arith
    ]

module _ (now : ℕ) (follower wallet : Text) (candidate : ℕ) (j : Journal) where
  abbrev reserved_nonce : ℕ
  reserved_nonce = next_nonce (nonce_of follower wallet j.signer_nonce) candidate

  abbrev reserved_journal : Journal
  reserved_journal = record j {
    signer_nonce = upsert_nonce (reserved_row now follower wallet candidate j) j.signer_nonce;
  }

  reserved-durable : nonce_of follower wallet reserved_journal.signer_nonce ≡ some reserved_nonce
  unfolding reserved_row
  reserved-durable =
      rw
        (
          nonce_of-upsert_nonce follower wallet (reserved_row now follower wallet candidate j)
              j.signer_nonce,
          text_eq_refl follower,
          text_eq_refl wallet,
        )
        refl

  reserved-FreshNonce :
      JournalIsValid j → FreshNonce follower wallet candidate j reserved_nonce reserved_journal
  unfolding reserved_row
  reserved-FreshNonce v = record {
    at_least_clock = (next_nonce_bounds (nonce_of follower wallet j.signer_nonce) candidate).1;
    above_last =
        λ last h. next_nonce_above (nonce_of follower wallet j.signer_nonce) candidate last h;
    durable = reserved-durable;
    unused = All-map_imp (row_below follower wallet candidate j) j.actions v.reserved;
    other_lanes = λ f w h.
        rw
          (
            nonce_of-upsert_nonce f w (reserved_row now follower wallet candidate j) j.signer_nonce,
            h,
          )
          refl;
    same_actions = refl;
  }

positive_int-eq : (n m : ℕ) → positive_int n ≡ ok m → m ≡ n
unfolding positive_int
positive_int-eq n m h = ground arith

-- A nonce that a valid journal reserves is at least the clock, above the lane's last nonce and
-- above the nonce of every action of the lane; it is stored as the lane's last, the other lanes
-- keep theirs and no action changes.
pub reserve_nonce-FreshNonce :
    (now : ℕ) (follower_account api_wallet : Text) (wall_ms : Option ℕ) (j k : Journal) (nonce : ℕ)
    (follower wallet : Text)
    → JournalIsValid j
    → identity follower_account ≡ ok follower
    → identity api_wallet ≡ ok wallet
    → reserve_nonce now follower_account api_wallet wall_ms j ≡ ok (nonce, k)
    → FreshNonce follower wallet (get_or wall_ms now) j nonce k
unfolding reserve_nonce
reserve_nonce-FreshNonce now follower_account api_wallet wall_ms j k nonce follower wallet v ef ew
      e =
    let (f, pf, e₁) = >>=-returns (identity follower_account) _ e in
    let (w, pw, e₂) = >>=-returns (identity api_wallet) _ e₁ in
    let (t, pt, e₃) = >>=-returns (positive_int (get_or wall_ms now)) _ e₂ in
    let fs : f ≡ follower = ground (arith, pf) in
    let ws : w ≡ wallet = ground (arith, pw) in
    read_back f w t fs ws (positive_int-eq (get_or wall_ms now) t pt) e₃
  where
    read_back :
        (f w : Text) (t : ℕ)
        → f ≡ follower
        → w ≡ wallet
        → t ≡ get_or wall_ms now
        → ◌≡◌ {A = Result JournalError (ℕ × Journal)}
            (ok (reserved_nonce now f w t j, reserved_journal now f w t j))
            (ok (nonce, k))
        → FreshNonce follower wallet (get_or wall_ms now) j nonce k
    read_back f w t fs ws ts h =
        let ns : reserved_nonce now f w t j ≡ nonce = ground arith in
        let ks : reserved_journal now f w t j ≡ k = ground arith in
        rw (← ks, ← ns, ← ts, ← fs, ← ws) (reserved-FreshNonce now f w t j v)

reserve_nonce-identities :
    (now : ℕ) (follower_account api_wallet : Text) (wall_ms : Option ℕ) (j : Journal)
    (q : ℕ × Journal)
    → reserve_nonce now follower_account api_wallet wall_ms j ≡ ok q
    → (f w : Text) × (identity follower_account ≡ ok f) × (identity api_wallet ≡ ok w)
unfolding reserve_nonce
reserve_nonce-identities now follower_account api_wallet wall_ms j q e =
    let (f, pf, e₁) = >>=-returns (identity follower_account) _ e in
    let (w, pw, _) = >>=-returns (identity api_wallet) _ e₁ in (f, w, pf, pw)

-- A later reservation of a lane is above an earlier one that a valid journal made, whatever calls come between and however
-- the clock moves.
pub nonces_increase :
    (now later : ℕ) (follower_account api_wallet : Text) (wall_ms wall_ms' : Option ℕ)
    (cs : List (ℕ × Call)) (j k l : Journal) (nonce nonce' : ℕ)
    → JournalIsValid j
    → reserve_nonce now follower_account api_wallet wall_ms j ≡ ok (nonce, k)
    → reserve_nonce later follower_account api_wallet wall_ms' (run cs k) ≡ ok (nonce', l)
    → nonce < nonce'
unfolding step
nonces_increase now later follower_account api_wallet wall_ms wall_ms' cs j k l nonce nonce' v e
      e' =
    let (f, w, ef, ew) =
      reserve_nonce-identities now follower_account api_wallet wall_ms j (nonce, k) e in
    let fresh =
      reserve_nonce-FreshNonce now follower_account api_wallet wall_ms j k nonce f w v ef ew e in
    let vk : JournalIsValid k =
      rw e at (step-Sound j v now (reserves follower_account api_wallet wall_ms)).0 in
    let (u, g) = run-Sound cs k vk in
    let (m, held, le) = g.keeps_nonces f w nonce fresh.durable in
    let fresh' =
      reserve_nonce-FreshNonce later follower_account api_wallet wall_ms' (run cs k) l nonce' f w u
        ef ew e' in
    let lt = fresh'.above_last m held in omega arith

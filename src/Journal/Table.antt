-- ===== src/Journal/Table.antt =====
-- The two tables under their statements: what a look-up finds after an insert, an upsert or an
-- update, and which keys an update leaves alone.
use hyperliquid_copytrader.Base.{
  true, none, false, ◌≡◌, refl, false, List, [], ◌∷◌, some, arith, if◌then◌else◌, All, inl, inr,
  Bool-cases, subst,
}
use hyperliquid_copytrader.Base.Text.{Text, text_eq, text_eq_iff}
use hyperliquid_copytrader.Journal.Records.{ActionRecord}
use hyperliquid_copytrader.Journal.Rows.{Evolves}
use hyperliquid_copytrader.Journal.Store.{
  NonceRow, owns_nonce, nonce_of, upsert_nonce, find_action, replace_action, collides, any_collides,
}

pub nonce_of-upsert_nonce :
    (follower wallet : Text) (new : NonceRow) (rows : List NonceRow)
    → nonce_of follower wallet (upsert_nonce new rows) ≡ (
        if owns_nonce follower wallet new
        then some new.last_nonce
        else nonce_of follower wallet rows)
unfolding nonce_of upsert_nonce
nonce_of-upsert_nonce follower wallet new [] = refl
nonce_of-upsert_nonce follower wallet new (row ∷ rows) = ground (
  arith,
  nonce_of-upsert_nonce follower wallet new rows,
  text_eq_iff row.follower_account new.follower_account,
  text_eq_iff row.api_wallet new.api_wallet,
  text_eq_iff new.follower_account follower,
  text_eq_iff new.api_wallet wallet,
  text_eq_iff row.follower_account follower,
  text_eq_iff row.api_wallet wallet,
)

-- A row that a look-up finds has the name that was looked up.
pub find_action-cloid :
    (cloid : Text) (r : ActionRecord) (rs : List ActionRecord)
    → find_action cloid rs ≡ some r
    → r.cloid ≡ cloid
unfolding find_action
find_action-cloid cloid r [] h = cc
find_action-cloid cloid r (x ∷ rs) h =
    ground (arith, find_action-cloid cloid r rs, text_eq_iff x.cloid cloid)

-- One name finds one row.
pub find_action_unique :
    (c d : Text) (r s : ActionRecord) (rs : List ActionRecord)
    → text_eq c d ≡ true
    → find_action c rs ≡ some r
    → find_action d rs ≡ some s
    → r ≡ s
find_action_unique c d r s rs same h k = ground (arith, text_eq_iff c d)

-- A row that a look-up finds has what all rows have.
pub find_action-All {κ} :
    (P : ActionRecord → Type κ) (cloid : Text) (r : ActionRecord) (rs : List ActionRecord)
    → All P rs
    → find_action cloid rs ≡ some r
    → P r
unfolding find_action
find_action-All P cloid r [] a h = absurd (cc)
find_action-All P cloid r (x ∷ rs) a h = elim (Bool-cases (text_eq x.cloid cloid)) [
  | inl hit ↦ subst P (ground arith) a.0
  | inr miss ↦ find_action-All P cloid r rs a.1 (ground arith)
]

pub find_action-replace :
    (cloid : Text) (new r : ActionRecord) (rs : List ActionRecord)
    → find_action new.cloid rs ≡ some r
    → find_action cloid (replace_action new rs)
      ≡ (if text_eq new.cloid cloid then some new else find_action cloid rs)
unfolding find_action replace_action
find_action-replace cloid new r [] h = cc
find_action-replace cloid new r (x ∷ rs) h = ground (
  arith,
  find_action-replace cloid new r rs,
  text_eq_iff x.cloid new.cloid,
  text_eq_iff x.cloid cloid,
  text_eq_iff new.cloid cloid,
)

pub All-replace {κ} :
    (P : ActionRecord → Type κ) (new : ActionRecord) (rs : List ActionRecord)
    → P new
    → All P rs
    → All P (replace_action new rs)
unfolding replace_action
All-replace P new [] p a = tt
All-replace P new (x ∷ rs) p a = ground (arith, All-replace P new rs p a.1)

collides-left : (r s x : ActionRecord) → Evolves r s → collides s x ≡ collides r x
collides-left r s x e = rw (
  e.same_cloid, e.same_follower, e.same_wallet, e.same_nonce, e.same_desired, e.same_market,
  e.same_attempt,
)

collides-right : (r s x : ActionRecord) → Evolves r s → collides x s ≡ collides x r
collides-right r s x e = rw (
  e.same_cloid, e.same_follower, e.same_wallet, e.same_nonce, e.same_desired, e.same_market,
  e.same_attempt,
)

pub any_collides-left :
    (r s : ActionRecord) (rs : List ActionRecord)
    → Evolves r s
    → any_collides s rs ≡ any_collides r rs
unfolding any_collides
any_collides-left r s [] e = refl
any_collides-left r s (x ∷ rs) e = rw (collides-left r s x e, any_collides-left r s rs e)

pub any_collides-replace :
    (new r s : ActionRecord) (rs : List ActionRecord)
    → find_action s.cloid rs ≡ some r
    → Evolves r s
    → any_collides new (replace_action s rs) ≡ any_collides new rs
unfolding any_collides replace_action find_action
any_collides-replace new r s [] h e = refl
any_collides-replace new r s (x ∷ rs) h e =
    ground (arith, any_collides-replace new r s rs, collides-right r s new e)

-- A row that collides with none has a name of its own.
pub find_action_fresh :
    (r : ActionRecord) (cloid : Text) (rs : List ActionRecord)
    → any_collides r rs ≡ false
    → text_eq r.cloid cloid ≡ true
    → find_action cloid rs ≡ none
unfolding any_collides find_action
find_action_fresh r cloid [] h e = refl
find_action_fresh r cloid (x ∷ rs) h e = ground (
  arith,
  find_action_fresh r cloid rs,
  text_eq_iff r.cloid cloid,
  text_eq_iff x.cloid cloid,
  text_eq_iff x.cloid r.cloid,
)

-- No two rows share a primary key, a nonce of one lane, or an attempt at one target.
abbrev pub Distinct : List ActionRecord → Type 0
Distinct [] = Unit
Distinct (r ∷ rs) = (any_collides r rs ≡ false) × Distinct rs

pub Distinct-replace :
    (r s : ActionRecord) (rs : List ActionRecord)
    → find_action s.cloid rs ≡ some r
    → Evolves r s
    → Distinct rs
    → Distinct (replace_action s rs)
unfolding replace_action find_action
Distinct-replace r s [] h e d = tt
Distinct-replace r s (x ∷ rs) h e d =
    ground
      (arith, Distinct-replace r s rs, any_collides-replace x r s rs, any_collides-left r s rs e)

-- ===== src/Account/Forward.antt =====
-- Snapshots of positions and of collateral do not go back in time.
use hyperliquid_copytrader.Base.{
  ℕ, ◌+◌, ◌-◌, ◌≤◌, Bool, true, false, List, [], ◌∷◌, some, leb, if◌then◌else◌, ◌≡◌, refl, inl, inr,
  arith, Bool-cases,
}
use hyperliquid_copytrader.Base.Int.{ℤ}
use hyperliquid_copytrader.Base.Text.{Text, text_eq, text_eq_iff}
use hyperliquid_copytrader.Journal.Records.{ok, require, require-ok, >>=-returns, ok_injective}
use hyperliquid_copytrader.Account.Records.{
  positions, collateral, time_of, look_up, put, collateral_backwards, positions_backwards,
}
use hyperliquid_copytrader.Account.Chain.{Positions, look_up-put}
use hyperliquid_copytrader.Account.Stream.{MutableAccount}
use hyperliquid_copytrader.Account.Fills.{or_else}
use hyperliquid_copytrader.Account.Spot.{replace_collateral, collateral_of, consistent}
use hyperliquid_copytrader.Account.Snapshots.{
  DexPositions, check_dex, check_dexes, observe_all, replace_positions, perp_equities, with_equity,
}

-- The exchange time at which the positions of a DEX are known; 0 where they are not.
abbrev pub known_at : Text → List (Text × ℕ) → ℕ
known_at dex seen = or_else (look_up dex seen) 0

check_dex-forward :
    (a : MutableAccount) (d : DexPositions)
    → check_dex a d ≡ ok tt
    → known_at d.dex a.position_observed_ms_by_dex ≤ d.observed_ms
check_dex-forward a d h =
    let prior = known_at d.dex a.position_observed_ms_by_dex in
    let (_, e, _) = >>=-returns (require (leb prior d.observed_ms) positions_backwards) _ h in
    let t = require-ok (leb prior d.observed_ms) positions_backwards e in ground arith

put-known_at :
    (k dex : Text) (t : ℕ) (seen : List (Text × ℕ))
    → known_at dex (put k t seen) ≡ (if text_eq k dex then t else known_at dex seen)
put-known_at k dex t seen = rw (look_up-put k dex t seen) (ground arith)

observe_all-forward :
    (dex : Text) (a : MutableAccount) (ds : List DexPositions) (seen : List (Text × ℕ))
    → check_dexes a ds ≡ ok tt
    → known_at dex a.position_observed_ms_by_dex ≤ known_at dex seen
    → known_at dex a.position_observed_ms_by_dex ≤ known_at dex (observe_all ds seen)
observe_all-forward dex a [] seen h l = l
observe_all-forward dex a (d ∷ ds) seen h l =
    let (_, e, h₁) = >>=-returns (check_dex a d) _ h in
    let step = put-known_at d.dex dex d.observed_ms seen in
    let here = check_dex-forward a d e in
    observe_all-forward dex a ds (put d.dex d.observed_ms seen) h₁
      (elim (Bool-cases (text_eq d.dex dex)) [
        | inl t ↦
            let same : d.dex ≡ dex = (text_eq_iff d.dex dex).0 t in
            let mine : known_at dex a.position_observed_ms_by_dex ≤ d.observed_ms =
              rw (← same) here in
            let now : known_at dex (put d.dex d.observed_ms seen) ≡ d.observed_ms = rw t at step in
            rw now mine
        | inr t ↦
            let now : known_at dex (put d.dex d.observed_ms seen) ≡ known_at dex seen =
              rw t at step in
            rw now l
      ])

with_equity-observed :
    (standard : Bool) (received_ms : ℕ) (ds : List DexPositions) (dexes : List Text)
    (found : List (Text × ℤ)) (a : MutableAccount)
    → (with_equity standard received_ms ds dexes found a).position_observed_ms_by_dex
      ≡ a.position_observed_ms_by_dex
with_equity-observed true received_ms ds dexes found a = refl
with_equity-observed false received_ms ds dexes found a = refl

-- An accepted snapshot of positions takes no DEX back in exchange time, whatever DEXes it has; the account
-- then has its positions, received when it was.
pub replace_positions-forward :
    (standard : Bool) (received_ms : ℕ) (dexes : List Text) (ps : Positions)
    (ds : List DexPositions) (a b : MutableAccount)
    → replace_positions standard received_ms dexes ps ds a ≡ ok b
    → ((dex : Text)
        → known_at dex a.position_observed_ms_by_dex ≤ known_at dex b.position_observed_ms_by_dex)
      × (b.positions ≡ ps)
      × (time_of positions b.component_received_ms ≡ some received_ms)
unfolding replace_positions
replace_positions-forward standard received_ms dexes ps ds a b h =
    let (_, e, h₁) = >>=-returns (check_dexes a ds) _ h in
    let (found, _, h₂) = >>=-returns (perp_equities standard ps ds dexes) _ h₁ in
    let same = ok_injective _ b h₂ in
    let sizes = with_equity-observed standard received_ms ds dexes found a in
    rw (← same) (
      (λ dex.
          rw sizes (observe_all-forward dex a ds a.position_observed_ms_by_dex e (omega arith))),
      refl,
      refl,
    )

pub replace_collateral-forward :
    (total hold observed_ms received_ms : ℕ) (a b : MutableAccount)
    → replace_collateral total hold observed_ms received_ms a ≡ ok b
    → (b.collateral ≡ some (collateral_of total hold observed_ms received_ms))
      × (or_else (time_of collateral a.component_observed_ms) 0 ≤ observed_ms)
      × (time_of collateral b.component_observed_ms ≡ some observed_ms)
unfolding replace_collateral
replace_collateral-forward total hold observed_ms received_ms a b h =
    let prior = or_else (time_of collateral a.component_observed_ms) 0 in
    let (_, e, h₁) = >>=-returns (require (leb prior observed_ms) collateral_backwards) _ h in
    let t = require-ok (leb prior observed_ms) collateral_backwards e in
    let same = ok_injective _ b h₁ in rw (← same) (refl, (ground arith), refl)

pub consistent-sums :
    (total hold : ℤ) (sizes : ℕ × ℕ)
    → consistent total hold ≡ ok sizes
    → sizes.1 + (sizes.0 - sizes.1) ≡ sizes.0
consistent-sums total hold sizes h = ground arith

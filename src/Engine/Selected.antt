-- ===== src/Engine/Selected.antt =====
-- The desired portfolio keeps to its slot's configuration.
use hyperliquid_copytrader.Base.{
  ℕ, zero, suc, ◌+◌, ◌≤◌, ◌≡◌, refl, true, List, [], ◌∷◌, ◌++◌, Option, none, some, length, All,
  arith, inl, inr, Bool-cases, Option-cases,
}
use hyperliquid_copytrader.Base.Int.{ℤ}
use hyperliquid_copytrader.Base.Text.{Text, text_eq, text_eq_iff}
use hyperliquid_copytrader.Journal.Records.{ok, >>=-returns, ok_injective}
use hyperliquid_copytrader.Account.Records.{Position, look_up, put}
use hyperliquid_copytrader.Account.Chain.{Positions}
use hyperliquid_copytrader.Engine.Precision.{DecimalContext, Decimal}
use hyperliquid_copytrader.Engine.Preflight.{is_zero}
use hyperliquid_copytrader.Engine.Records.{
  SlotConfig, DesiredPortfolio, usable_mid, sort_by, sort_by-All,
}
use hyperliquid_copytrader.Engine.Portfolio.{
  Candidate, bad_source_equity, bad_follower_equity, positive_equity, canonical, is_allowed,
  first_of, larger, candidate_of, candidates, rescaled, positions_of, selected, scaled,
  capped_leverage, gross_scale_of, gross_of, build_desired_portfolio,
}

abbrev LeverageWithin : ℕ → Option ℕ → Type 0
LeverageWithin limit none = Unit
LeverageWithin limit (some leverage) = leverage ≤ limit

-- A position of a market that the slot allows and that has a price, within the slot's leverage.
pub record Fits (slot : SlotConfig) (mids : List (Text × Decimal)) (market : Text) (p : Position)
    : Type 0 where
  pub names : p.coin ≡ market
  pub allowed : is_allowed slot.allowed_markets market ≡ true
  pub mid : ℕ
  pub priced : usable_mid (look_up market mids) ≡ some mid
  pub leverage_within : LeverageWithin slot.max_leverage p.leverage

capped_leverage-within : (limit : ℕ) (l : Option ℕ) → LeverageWithin limit (capped_leverage limit l)
capped_leverage-within limit none = tt
capped_leverage-within limit (some leverage) = ground arith

All-append :
    (P : Candidate → Type 0) (xs ys : List Candidate) → All P xs → All P ys → All P (xs ++ ys)
All-append P [] ys h k = k
All-append P (x ∷ xs) ys (p, h) k = (p, All-append P xs ys h k)

All-first_of :
    (P : Candidate → Type 0) (n : ℕ) (xs : List Candidate) → All P xs → All P (first_of n xs)
All-first_of P zero xs h = tt
All-first_of P (suc n) [] h = tt
All-first_of P (suc n) (x ∷ xs) (p, h) = (p, All-first_of P n xs h)

length-first_of : (n : ℕ) (xs : List Candidate) → length (first_of n xs) ≤ n
length-first_of zero xs = omega arith
length-first_of (suc n) [] = omega arith
length-first_of (suc n) (x ∷ xs) = omega (arith, length-first_of n xs)

module _ (c : DecimalContext) (slot : SlotConfig) (mids : List (Text × Decimal)) where
  FitsCandidate : Candidate → Type 0
  FitsCandidate k = Fits slot mids k.market k.target

  FitsEntry : Text × Position → Type 0
  FitsEntry e = Fits slot mids e.0 e.1

  candidate-Fits :
      (scale : ℕ) (market : Text) (source : Position)
      → All FitsCandidate (candidate_of c slot scale mids market source)
  unfolding FitsCandidate
  candidate-Fits scale market source = elim (Bool-cases (is_allowed slot.allowed_markets market)) [
    | inr e ↦ rw e tt
    | inl e ↦ elim (Option-cases (usable_mid (look_up market mids))) [
      | inl n ↦ rw (e, n) tt
      | inr (mid, known) ↦ elim (Bool-cases (is_zero (scaled c source.size scale))) [
        | inl z ↦ rw (e, known, z) tt
        | inr z ↦
            rw (e, known, z)
              (
                record {
                  names = refl;
                  allowed = e;
                  mid = mid;
                  priced = known;
                  leverage_within = capped_leverage-within slot.max_leverage source.leverage;
                },
                tt,
              )
      ]
    ]
  ]

  candidates-Fit :
      (scale : ℕ) (sources : Positions) (ks : List Candidate)
      → candidates c slot scale mids sources ≡ ok ks
      → All FitsCandidate ks
  candidates-Fit scale [] ks h = rw (← ok_injective [] ks h) tt
  candidates-Fit scale ((raw, source) ∷ rest) ks h =
      let (market, _, h₁) = >>=-returns (canonical raw) _ h in
      let (others, e, h₂) = >>=-returns (candidates c slot scale mids rest) _ h₁ in
      rw (← ok_injective _ ks h₂) (
        All-append FitsCandidate (candidate_of c slot scale mids market source) others
          (candidate-Fits scale market source) (candidates-Fit scale rest others e))

  put-Fits :
      (market : Text) (p : Position) (es : Positions)
      → Fits slot mids market p
      → All FitsEntry es
      → All FitsEntry (put market p es)
  unfolding FitsEntry put
  put-Fits market p [] f h = (f, tt)
  put-Fits market p ((k, q) ∷ es) f (g, h) = elim (Bool-cases (text_eq k market)) [
    | inl e ↦ let same : k ≡ market = (text_eq_iff k market).0 e in rw e ((rw (← same) at f), h)
    | inr e ↦ rw e (g, put-Fits market p es f h)
  ]

  length-put :
      (market : Text) (p : Position) (es : Positions) → length (put market p es) ≤ suc (length es)
  unfolding put
  length-put market p [] = omega arith
  length-put market p ((k, q) ∷ es) = ground (arith, length-put market p es)

  positions_of-Fit :
      (gross_scale : ℕ) (ks : List Candidate) (known : Positions)
      → All FitsCandidate ks
      → All FitsEntry known
      → All FitsEntry (positions_of c gross_scale ks known)
        × (length (positions_of c gross_scale ks known) ≤ length ks + length known)
  unfolding FitsCandidate
  positions_of-Fit gross_scale [] known h k = (k, omega arith)
  positions_of-Fit gross_scale (x ∷ ks) known (f, h) k =
      let moved = put x.market (rescaled c gross_scale x) known in
      let fits : Fits slot mids x.market (rescaled c gross_scale x) = record {
        names = f.names;
        allowed = f.allowed;
        mid = f.mid;
        priced = f.priced;
        leverage_within = f.leverage_within;
      } in
      let (all, few) =
        positions_of-Fit gross_scale ks moved h
          (put-Fits x.market (rescaled c gross_scale x) known fits k) in
      let one_more = length-put x.market (rescaled c gross_scale x) known in (all, omega arith)

  -- A portfolio has at most the slot's number of positions; each is of a market that the slot allows and
  -- that has a positive mid, and its leverage is within the slot's.
  pub build_desired_portfolio-Fits :
      (identity_hash : Text → ℕ → List (Text × ℤ) → Text) (sources : Positions)
      (source_equity follower_equity : Decimal) (p : DesiredPortfolio)
      → build_desired_portfolio c identity_hash slot sources source_equity follower_equity mids
        ≡ ok p
      → (length p.positions ≤ slot.max_open_positions)
        × All (λ e. Fits slot mids e.0 e.1) p.positions
  unfolding build_desired_portfolio FitsEntry
  build_desired_portfolio-Fits identity_hash sources source_equity follower_equity p h =
      let (source, _, h₁) = >>=-returns (positive_equity bad_source_equity source_equity) _ h in
      let (follower, _, h₂) =
        >>=-returns (positive_equity bad_follower_equity follower_equity) _ h₁ in
      let scale = c.times (c.over follower source) slot.multiplier in
      let (ks, e, h₃) = >>=-returns (candidates c slot scale mids sources) _ h₂ in
      let chosen = selected c slot ks in
      let gross_scale = gross_scale_of c slot (gross_of chosen) in
      let fit =
        All-first_of FitsCandidate slot.max_open_positions (sort_by larger ks)
          (sort_by-All larger FitsCandidate ks (candidates-Fit scale sources ks e)) in
      let (all, few) = positions_of-Fit gross_scale chosen [] fit tt in
      let short = length-first_of slot.max_open_positions (sort_by larger ks) in
      rw (← ok_injective _ p h₃) ((omega arith), all)

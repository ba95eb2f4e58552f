-- ===== src/Engine/Portfolio.antt =====
-- `build_desired_portfolio` (desired_engine.py).
--
-- The hash of the portfolio's identity (SHA-256 of its JSON text) is an argument: a function of the
-- slot, the scale and the sizes, sorted by market.
use hyperliquid_copytrader.Base.{
  ℕ, zero, suc, ◌+◌, Bool, true, not, ◌&&◌, ◌||◌, List, [], ◌∷◌, ◌++◌, Option, none, some, ltb,
  ◌==◌, if◌then◌else◌,
}
use hyperliquid_copytrader.Base.Int.{ℤ, pos}
use hyperliquid_copytrader.Base.Text.{Text, text_lt}
use hyperliquid_copytrader.Journal.Records.{Result, ok, err, ◌>>=◌, ◌>>◌, require}
use hyperliquid_copytrader.Wire.Json.{magnitude}
use hyperliquid_copytrader.Markets.Identity.{canonical_market, MarketIdentityError}
use hyperliquid_copytrader.Account.Records.{Position, look_up, put}
use hyperliquid_copytrader.Account.Chain.{Positions}
use hyperliquid_copytrader.Account.Stream.{member}
use hyperliquid_copytrader.Engine.Precision.{DecimalContext, Decimal, finite, one, with_sign}
use hyperliquid_copytrader.Engine.Preflight.{is_zero}
use hyperliquid_copytrader.Engine.Records.{SlotConfig, DesiredPortfolio, usable_mid, sort_by}
use hyperliquid_copytrader.Engine.Choose.{lesser}

pub data PortfolioError : Type 0 where
  bad_source_equity bad_follower_equity : PortfolioError
  bad_market : MarketIdentityError → PortfolioError

pub record Candidate : Type 0 where
  pub market : Text
  pub target : Position
  pub notional : ℕ

abbrev pub positive_equity : PortfolioError → Decimal → Result PortfolioError ℕ
positive_equity error (finite (pos n)) = do require (ltb 0 n) error; ok n
positive_equity error _ = err error

abbrev pub canonical : Text → Result PortfolioError Text
canonical raw = elim (canonical_market raw) [ ok m ↦ ok m | err e ↦ err (bad_market e) ]

-- `allowed and market not in allowed` is false; no allowed market stands for all of them.
abbrev pub is_allowed : List Text → Text → Bool
is_allowed [] market = true
is_allowed (m ∷ ms) market = member market (m ∷ ms)

abbrev pub capped_leverage : ℕ → Option ℕ → Option ℕ
capped_leverage limit none = none
capped_leverage limit (some leverage) = some (lesser leverage limit)

abbrev pub first_of {ℓ} : {A : Type ℓ} → ℕ → List A → List A
first_of zero xs = []
first_of (suc n) [] = []
first_of (suc n) (x ∷ xs) = x ∷ first_of n xs

-- The larger notional first, then by name.
abbrev pub larger : Candidate → Candidate → Bool
larger a b =
    ltb b.notional a.notional || (a.notional == b.notional && not (text_lt b.market a.market))

abbrev pub gross_of : List Candidate → ℕ
gross_of [] = 0
gross_of (k ∷ ks) = k.notional + gross_of ks

module _ (c : DecimalContext) where
  abbrev pub scaled : ℤ → ℕ → ℤ
  scaled size scale = with_sign size (c.times (magnitude size) scale)

  abbrev pub target_of : SlotConfig → Text → Position → ℤ → Position
  target_of slot market source size = record {
    coin = market;
    size = size;
    entry_px = source.entry_px;
    leverage = capped_leverage slot.max_leverage source.leverage;
    updated_ms = source.updated_ms;
  }

  abbrev pub with_mid : SlotConfig → ℕ → Text → Position → Option ℕ → List Candidate
  with_mid slot scale market source none = []
  with_mid slot scale market source (some mid) =
      let size = scaled source.size scale in
      if is_zero size
      then []
      else record {
        market = market;
        target = target_of slot market source size;
        notional = c.times (magnitude size) mid;
      }
        ∷ []

  -- What one source position is copied to.
  abbrev pub candidate_of :
      SlotConfig → ℕ → List (Text × Decimal) → Text → Position → List Candidate
  candidate_of slot scale mids market source =
      if not (is_allowed slot.allowed_markets market)
      then []
      else with_mid slot scale market source (usable_mid (look_up market mids))

  abbrev pub candidates :
      SlotConfig → ℕ → List (Text × Decimal) → Positions → Result PortfolioError (List Candidate)
  candidates slot scale mids [] = ok []
  candidates slot scale mids ((raw, source) ∷ rest) = do
    market ← canonical raw
    others ← candidates slot scale mids rest
    ok (candidate_of slot scale mids market source ++ others)

  abbrev pub gross_scale_of : SlotConfig → ℕ → ℕ
  gross_scale_of slot gross =
      if ltb slot.max_gross_exposure_usd gross
      then c.over slot.max_gross_exposure_usd gross
      else one c

  abbrev pub rescaled : ℕ → Candidate → Position
  rescaled gross_scale k = record k.target { size = scaled k.target.size gross_scale }

  -- The dictionary of the selected positions.
  abbrev pub positions_of : ℕ → List Candidate → Positions → Positions
  positions_of gross_scale [] known = known
  positions_of gross_scale (k ∷ ks) known =
      positions_of gross_scale ks (put k.market (rescaled gross_scale k) known)

  abbrev mid_or_zero : Option ℕ → ℕ
  mid_or_zero none = 0
  mid_or_zero (some n) = n

  abbrev final_gross : List (Text × Decimal) → Positions → ℕ
  final_gross mids [] = 0
  final_gross mids ((market, p) ∷ rest) =
      c.times (magnitude p.size) (mid_or_zero (usable_mid (look_up market mids)))
      + final_gross mids rest

  abbrev sizes : Positions → List (Text × ℤ)
  sizes [] = []
  sizes ((market, p) ∷ rest) = (market, p.size) ∷ sizes rest

  -- `candidates[: slot.max_open_positions]`, sorted
  abbrev pub selected : SlotConfig → List Candidate → List Candidate
  selected slot ks = first_of slot.max_open_positions (sort_by larger ks)

  abbrev pub portfolio :
      (Text → ℕ → List (Text × ℤ) → Text)
      → SlotConfig
      → ℕ
      → ℕ
      → ℕ
      → List (Text × Decimal)
      → List Candidate
      → DesiredPortfolio
  portfolio identity_hash slot source_equity follower_equity scale mids ks =
      let gross_scale = gross_scale_of slot (gross_of ks) in
      let positions = positions_of gross_scale ks [] in
      record {
        desired_id =
            identity_hash slot.slot scale
              (sort_by (λ a b. not (text_lt b.0 a.0)) (sizes positions));
        positions = positions;
        source_equity = source_equity;
        follower_equity = follower_equity;
        scale = scale;
        gross_scale = gross_scale;
        gross_notional_usd = final_gross mids positions;
      }

  -- `build_desired_portfolio`
  unfoldable pub build_desired_portfolio :
      (Text → ℕ → List (Text × ℤ) → Text)
      → SlotConfig
      → Positions
      → Decimal
      → Decimal
      → List (Text × Decimal)
      → Result PortfolioError DesiredPortfolio
  build_desired_portfolio identity_hash slot source_positions source_equity follower_equity mids =
      do
        source ← positive_equity bad_source_equity source_equity
        follower ← positive_equity bad_follower_equity follower_equity
        let scale = c.times (c.over follower source) slot.multiplier
        ks ← candidates slot scale mids source_positions
        ok (portfolio identity_hash slot source follower scale mids (selected slot ks))

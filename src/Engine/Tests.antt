-- ===== src/Engine/Tests.antt =====
-- The engine on concrete inputs, with decimals of four digits.
use hyperliquid_copytrader.Base.{
  ℕ, ◌*◌, ◌/◌, ◌≤◌, ◌≡◌, refl, true, false, List, [], ◌∷◌, none, some, length, All,
}
use hyperliquid_copytrader.Base.Int.{ℤ, pos, negsuc, ◌+ℤ◌, ◌-ℤ◌}
use hyperliquid_copytrader.Base.Text.{Text, codes, text_eq, text_lt, strip, lower}
use hyperliquid_copytrader.Journal.Records.{ok, err, DecimalText}
use hyperliquid_copytrader.Markets.Identity.{
  canonical_market, parse_market, parse_stripped, market_identity, is_asset_component,
  is_dex_component, canonical_asset, islower,
}
use hyperliquid_copytrader.Account.Records.{Position, look_up, put}
use hyperliquid_copytrader.Account.Chain.{Positions}
use hyperliquid_copytrader.Executor.Records.{NextAction}
use hyperliquid_copytrader.Engine.Precision.{
  DecimalContext, Decimal, not_finite, finite, bad_slippage, quantize_size, quantize_price,
  quantize_price_inside_limit, aggressive_ioc_price,
}
use hyperliquid_copytrader.Engine.Preflight.{
  OrderRequest, HyperliquidPerpRules, placeable_after_rounding, exceeds_cap, increase_below_minimum,
  is_placeable, checked, preflight,
}
use hyperliquid_copytrader.Engine.Records.{SlotConfig, DesiredPortfolio, unresolved_action}
use hyperliquid_copytrader.Engine.Choose.{
  Inputs, shrinks, reverses, raw_size, reduces_only, capped, judge, choose_from, choose_next_action,
}
use hyperliquid_copytrader.Engine.Admitted.{Admitted, preflight-Admitted}
use hyperliquid_copytrader.Engine.Limits.{Limit, aggressive_ioc_price-Limit}
use hyperliquid_copytrader.Engine.Chosen.{Chosen}
use hyperliquid_copytrader.Engine.Portfolio.{build_desired_portfolio, bad_source_equity}
use hyperliquid_copytrader.Engine.Selected.{Fits, build_desired_portfolio-Fits}

every_clause : Unit {0}
unfolding text_eq text_lt strip lower canonical_market parse_market parse_stripped market_identity
    is_asset_component is_dex_component canonical_asset islower look_up put ◌+ℤ◌ ◌-ℤ◌ quantize_size
    quantize_price quantize_price_inside_limit aggressive_ioc_price checked preflight shrinks
    reverses raw_size reduces_only capped judge choose_from choose_next_action
    build_desired_portfolio
every_clause = tt

abbrev context : DecimalContext
context = record { quantum_digits = 4; times = λ a b. a * b / 10000; over = λ a b. a * 10000 / b }

-- A buy at 123.45 with 50 basis points, of an asset with two size decimals.
buy_limit :
    aggressive_ioc_price context (finite (pos 1234500)) true (finite (pos 500000)) 2 ≡ ok 1240600
unfolding every_clause
buy_limit = refl

sell_limit :
    aggressive_ioc_price context (finite (pos 1234500)) false (finite (pos 500000)) 2 ≡ ok 1228400
unfolding every_clause
sell_limit = refl

whole_slippage :
    aggressive_ioc_price context (finite (pos 1234500)) true (finite (pos 100000000)) 2
    ≡ err bad_slippage
unfolding every_clause
whole_slippage = refl

aggressive_ioc_price-Limit_example :
    Limit context true (finite (pos 1234500)) (finite (pos 500000)) 2 1240600
aggressive_ioc_price-Limit_example =
    aggressive_ioc_price-Limit context (finite (pos 1234500)) true (finite (pos 500000)) 2 1240600
      buy_limit

abbrev btc : Text
btc = codes "BTC"

abbrev eth : Text
eth = codes "ETH"

abbrev rules : HyperliquidPerpRules
rules = record {
  market = btc;
  sz_decimals = 2;
  max_leverage = 40;
  minimum_notional_usd = 100000;
  contract_size = 10000;
  market_type = codes "perp";
}

-- An order for `quantity` at 100, with a cap of 500.
abbrev order : ℕ → OrderRequest
order quantity = record {
  rules = rules;
  requested_quantity = finite (pos quantity);
  price = finite (pos 1000000);
  side = codes " Buy";
  max_order_notional_usd = finite (pos 5000000);
  reduce_only = false;
  current_position_size = finite (pos 0);
  leverage = some 20;
  available_collateral_usd = some (finite (pos 1000000));
}

-- 1.2345 is rounded to 1.23 lots.
rounded_order : (preflight context (order 12345)).eligibility ≡ placeable_after_rounding
unfolding every_clause
rounded_order = refl

small_order : (preflight context (order 900)).reason ≡ increase_below_minimum
unfolding every_clause
small_order = refl

large_order : (preflight context (order 60000)).reason ≡ exceeds_cap
unfolding every_clause
large_order = refl

rounded_order_passes : is_placeable (preflight context (order 12345)).eligibility ≡ true
unfolding every_clause
rounded_order_passes = refl

preflight-Admitted_example : Admitted context (order 12345)
preflight-Admitted_example = preflight-Admitted context (order 12345) rounded_order_passes

abbrev slot : SlotConfig
slot = record {
  slot = codes "one";
  multiplier = 10000;
  max_order_notional_usd = 2500000;
  max_gross_exposure_usd = 10000000;
  max_open_positions = 2;
  max_leverage = 5;
  allowed_markets = btc ∷ eth ∷ [];
}

abbrev holding : Text → ℤ → Position
holding market size = record {
  coin = market;
  size = size;
  entry_px = none;
  leverage = some 10;
  updated_ms = 7;
}

abbrev prices : List (Text × Decimal)
prices =
    (btc, finite (pos 1000000))
    ∷ (eth, finite (pos 200000))
    ∷ (codes "DOGE", finite (pos 1000))
    ∷ []

abbrev wanted : DesiredPortfolio
wanted = record {
  desired_id = codes "id";
  positions = (eth, holding eth (pos 30000)) ∷ (btc, holding btc (pos 20000)) ∷ [];
  source_equity = 1;
  follower_equity = 1;
  scale = 10000;
  gross_scale = 10000;
  gross_notional_usd = 0;
}

abbrev held : ℕ → List (Text × ℤ) → Inputs
held n unresolved = record {
  slot = slot;
  desired = wanted;
  follower_positions = (btc, holding btc (pos n)) ∷ [];
  unresolved_signed_remaining = unresolved;
  mids = prices;
  size_decimals = (btc, 2) ∷ (eth, 1) ∷ [];
  market_rules = none;
}

abbrev sale : NextAction
sale = record {
  desired_id = codes "id";
  market = btc;
  side = codes "sell";
  size = DecimalText.finite (pos 25000);
  reduce_only = true;
}

-- The reduction comes before the purchase, and is capped at 250.
sells_first : (choose_next_action context (held 50000 [])).action ≡ some sale
unfolding every_clause
sells_first = refl

abbrev purchase : NextAction
purchase = record {
  desired_id = codes "id";
  market = eth;
  side = codes "buy";
  size = DecimalText.finite (pos 30000);
  reduce_only = false;
}

unresolved_stops :
    (choose_next_action context (held 50000 ((btc, negsuc 9999) ∷ []))).blocker
    ≡ some (btc, unresolved_action)
unfolding every_clause
unresolved_stops = refl

-- The purchase of ETH is under way.
abbrev under_way : Inputs
under_way = held 20000 ((eth, pos 30000) ∷ [])

abbrev name_of : Text → ℕ → List (Text × ℤ) → Text
name_of _ _ _ = codes "id"

-- A source with four times the follower's equity.
abbrev sources : Positions
sources =
    (codes "btc", holding (codes "btc") (pos 80000))
    ∷ (codes "DOGE", holding (codes "DOGE") (pos 70000))
    ∷ (eth, holding eth (negsuc 39999))
    ∷ []

abbrev copy : DesiredPortfolio
copy = record {
  desired_id = codes "id";
  positions =
      (
        btc,
        record { coin = btc; size = pos 20000; entry_px = none; leverage = some 5; updated_ms = 7 },
      )
      ∷ (
        eth,
        record {
          coin = eth;
          size = negsuc 9999;
          entry_px = none;
          leverage = some 5;
          updated_ms = 7;
        },
      )
      ∷ [];
  source_equity = 400000;
  follower_equity = 100000;
  scale = 2500;
  gross_scale = 10000;
  gross_notional_usd = 2200000;
}

copied :
    build_desired_portfolio context name_of slot sources
      (finite (pos 400000))
      (finite (pos 100000))
      prices
    ≡ ok copy
unfolding every_clause
copied = refl

no_equity :
    build_desired_portfolio context name_of slot sources not_finite (finite (pos 100000)) prices
    ≡ err bad_source_equity
unfolding every_clause
no_equity = refl

build_desired_portfolio-Fits_example :
    (length copy.positions ≤ 2) × All (λ e. Fits slot prices e.0 e.1) copy.positions
build_desired_portfolio-Fits_example =
    build_desired_portfolio-Fits context slot prices name_of sources (finite (pos 400000))
      (finite (pos 100000)) copy copied

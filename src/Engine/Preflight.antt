-- ===== src/Engine/Preflight.antt =====
-- `preflight_hyperliquid_perp_order` (order_preflight.py).
--
-- The reasons are the texts of the source without the numbers in them. The fields of the result that
-- repeat an argument or a rule are left out.
use hyperliquid_copytrader.Base.{
  ℕ, ◌*◌, Bool, true, false, not, ◌&&◌, ◌||◌, Option, none, some, ltb, leb, ◌==◌, if◌then◌else◌,
}
use hyperliquid_copytrader.Base.Int.{ℤ, pos, negsuc, ◌+ℤ◌, ◌-ℤ◌, pos_part, neg_part}
use hyperliquid_copytrader.Base.Text.{Text, codes, text_eq, strip, lower}
use hyperliquid_copytrader.Journal.Records.{Result, ok, err, ◌>>=◌, ◌>>◌, require}
use hyperliquid_copytrader.Wire.Json.{magnitude}
use hyperliquid_copytrader.Engine.Precision.{
  DecimalContext, Decimal, not_finite, finite, PrecisionError, one, quantize_size, quantize_price,
}

pub record HyperliquidPerpRules : Type 0 where
  pub market : Text
  pub sz_decimals : ℕ
  pub max_leverage : ℕ
  pub minimum_notional_usd : ℕ
  pub contract_size : ℕ
  pub market_type : Text

pub data OrderEligibility : Type 0 where
  placeable placeable_after_rounding rejected : OrderEligibility

pub data Reason : Type 0 where
  bad_side inputs_not_finite inputs_not_positive below_one_lot exceeds_cap : Reason
  price_not_representable : PrecisionError → Reason
  partial_below_minimum increase_below_minimum bad_leverage exceeds_collateral : Reason
  exact_close_placeable margin_is_venues rounded rounded_with_margin passes_with_margin passes :
      Reason

pub record OrderRequest : Type 0 where
  pub rules : HyperliquidPerpRules
  pub requested_quantity : Decimal
  pub price : Decimal
  pub side : Text
  pub max_order_notional_usd : Decimal
  pub reduce_only : Bool
  pub current_position_size : Decimal
  pub leverage : Option ℕ
  pub available_collateral_usd : Option Decimal

pub record OrderPreflightResult : Type 0 where
  pub eligibility : OrderEligibility
  pub rounded_quantity : ℕ
  pub rounded_price : Option ℕ
  pub submitted_notional_usd : Option ℕ
  pub required_margin_usd : Option ℕ
  pub exact_reduce_only_close : Bool
  pub reason : Reason

abbrev pub is_placeable : OrderEligibility → Bool
is_placeable rejected = false
is_placeable _ = true

-- A side that is `buy` or `sell` after normalization; true for `buy`.
abbrev pub side_of : Text → Option Bool
side_of side =
    if text_eq (lower (strip side)) (codes "buy")
    then some true
    else if text_eq (lower (strip side)) (codes "sell")
    then some false
    else none

abbrev pub is_spot : HyperliquidPerpRules → Bool
is_spot rules = text_eq rules.market_type (codes "spot")

abbrev pub is_zero : ℤ → Bool
is_zero z = pos_part z == 0 && neg_part z == 0

-- The signed size of an order.
abbrev pub signed_quantity : Bool → ℕ → ℤ
signed_quantity true n = pos n
signed_quantity false n = pos 0 -ℤ pos n

abbrev exact_close_of : Option Bool → ℕ → Decimal → Bool
exact_close_of (some is_buy) quantity (finite current) =
    ltb 0 quantity && not (is_zero current) && is_zero (current +ℤ signed_quantity is_buy quantity)
exact_close_of _ quantity current = false

-- `_is_exact_reduce_only_close`
abbrev pub is_exact_reduce_only_close : OrderRequest → ℕ → Bool
is_exact_reduce_only_close r quantity =
    r.reduce_only && exact_close_of (side_of r.side) quantity r.current_position_size

abbrev option_of {ℓ} : {A : Type ℓ} → Result PrecisionError A → Option A
option_of (ok a) = some a
option_of (err e) = none

-- The three amounts of an order, all positive.
pub record Amounts : Type 0 where
  pub quantity : ℕ
  pub price : ℕ
  pub cap : ℕ

abbrev pub positive_amounts : ℤ → ℤ → ℤ → Result Reason Amounts
positive_amounts (pos q) (pos p) (pos m) = do
  require (ltb 0 q && ltb 0 p && ltb 0 m) inputs_not_positive
  ok (record { quantity = q; price = p; cap = m })
positive_amounts _ _ _ = err inputs_not_positive

abbrev pub amounts_of : Decimal → Decimal → Decimal → Decimal → Result Reason Amounts
amounts_of (finite q) (finite p) (finite m) (finite current) = positive_amounts q p m
amounts_of _ _ _ _ = err inputs_not_finite

abbrev pub representable : Result PrecisionError ℕ → Result Reason ℕ
representable (ok p) = ok p
representable (err e) = err (price_not_representable e)

abbrev pub known_side : Option Bool → Result Reason Bool
known_side none = err bad_side
known_side (some b) = ok b

abbrev pub below_minimum : Bool → Reason
below_minimum true = partial_below_minimum
below_minimum false = increase_below_minimum

-- What the checks establish.
pub record Checked : Type 0 where
  pub quantity : ℕ
  pub price : ℕ
  pub notional : ℕ
  pub margin : Option ℕ

module _ (c : DecimalContext) where
  -- `rounded * rules.contract_size * rounded_price`
  abbrev pub notional_of : HyperliquidPerpRules → ℕ → ℕ → ℕ
  notional_of rules quantity price = c.times (c.times quantity rules.contract_size) price

  abbrev collateral_covers : ℕ → Option Decimal → Bool
  collateral_covers margin (some (finite (pos available))) = leb margin available
  collateral_covers margin (some (finite (negsuc n))) = false
  collateral_covers margin _ = true

  abbrev pub margin_check : OrderRequest → ℕ → Bool → Option ℕ → Result Reason (Option ℕ)
  margin_check r notional false (some leverage) = do
    require (leb 1 leverage && leb leverage r.rules.max_leverage) bad_leverage
    let margin = c.over notional (leverage * one c)
    require (collateral_covers margin r.available_collateral_usd) exceeds_collateral
    ok (some margin)
  margin_check r notional reduce_only leverage = ok none

  -- The checks on an order whose quantity is `quantity` lots' worth and whose price is rounded.
  abbrev pub order_checks : OrderRequest → ℕ → ℕ → ℕ → Result Reason Checked
  order_checks r cap quantity price = do
    let notional = notional_of r.rules quantity price
    require (leb notional cap) exceeds_cap
    require (leb r.rules.minimum_notional_usd notional || is_exact_reduce_only_close r quantity)
        (below_minimum r.reduce_only)
    margin ← margin_check r notional r.reduce_only r.leverage
    ok (record { quantity = quantity; price = price; notional = notional; margin = margin })

  -- The quantity in whole lots.
  abbrev pub lots_of : OrderRequest → ℕ → ℕ
  lots_of r quantity = magnitude (quantize_size c (pos quantity) r.rules.sz_decimals)

  -- The checks in their order.
  unfoldable pub checked : OrderRequest → Result Reason Checked
  checked r = do
    is_buy ← known_side (side_of r.side)
    a ← amounts_of r.requested_quantity r.price r.max_order_notional_usd r.current_position_size
    price ←
        representable
          (quantize_price c (finite (pos a.price)) r.rules.sz_decimals (is_spot r.rules))
    require (ltb 0 (lots_of r a.quantity)) below_one_lot
    order_checks r a.cap (lots_of r a.quantity) price

  -- The rounded quantity that a result shows: 0 where the order was rejected before it was rounded.
  abbrev shown_quantity : OrderRequest → Reason → ℕ
  shown_quantity r bad_side = 0
  shown_quantity r inputs_not_finite = 0
  shown_quantity r inputs_not_positive = 0
  shown_quantity r (price_not_representable e) = 0
  shown_quantity r reason = elim r.requested_quantity [
    | not_finite ↦ 0
    | finite z ↦ lots_of r (magnitude z)
  ]

  abbrev shown_notional : HyperliquidPerpRules → ℕ → Option ℕ → Option ℕ
  shown_notional rules quantity none = none
  shown_notional rules quantity (some price) = some (notional_of rules quantity price)

  abbrev shown_margin : Bool → Option ℕ → Option ℕ → Option ℕ
  shown_margin true leverage notional = some 0
  shown_margin false (some leverage) (some notional) =
      if leverage == 0 then none else some (c.over notional (leverage * one c))
  shown_margin false _ _ = none

  -- `_result`
  abbrev pub result_of : OrderRequest → OrderEligibility → ℕ → Reason → OrderPreflightResult
  result_of r eligibility quantity reason =
      let price = option_of (quantize_price c r.price r.rules.sz_decimals (is_spot r.rules)) in
      let notional = shown_notional r.rules quantity price in
      record {
        eligibility = eligibility;
        rounded_quantity = quantity;
        rounded_price = price;
        submitted_notional_usd = notional;
        required_margin_usd = shown_margin r.reduce_only r.leverage notional;
        exact_reduce_only_close = is_exact_reduce_only_close r quantity;
        reason = reason;
      }

  abbrev is_amount : Decimal → ℕ → Bool
  is_amount (finite (pos n)) m = n == m
  is_amount _ m = false

  abbrev unchanged : OrderRequest → Checked → Bool
  unchanged r k = is_amount r.requested_quantity k.quantity && is_amount r.price k.price

  abbrev unknown_collateral : Option Decimal → Bool
  unknown_collateral none = true
  unknown_collateral (some v) = false

  abbrev no_margin : Option ℕ → Bool
  no_margin none = true
  no_margin (some m) = false

  -- The reason that a placeable order is given.
  abbrev pub placeable_reason : OrderRequest → Checked → Reason
  placeable_reason r k =
      let estimated = not r.reduce_only && unknown_collateral r.available_collateral_usd in
      if is_exact_reduce_only_close r k.quantity && ltb k.notional r.rules.minimum_notional_usd
      then exact_close_placeable
      else if no_margin k.margin && not r.reduce_only
      then margin_is_venues
      else if not (unchanged r k)
      then (if estimated then rounded_with_margin else rounded)
      else if estimated
      then passes_with_margin
      else passes

  abbrev status_of : OrderRequest → Checked → OrderEligibility
  status_of r k = if unchanged r k then placeable else placeable_after_rounding

  abbrev pub reported : OrderRequest → Result Reason Checked → OrderPreflightResult
  reported r (err reason) = result_of r rejected (shown_quantity r reason) reason
  reported r (ok k) = result_of r (status_of r k) k.quantity (placeable_reason r k)

  -- `preflight_hyperliquid_perp_order`
  unfoldable pub preflight : OrderRequest → OrderPreflightResult
  unfolding checked
  preflight r = reported r (checked r)

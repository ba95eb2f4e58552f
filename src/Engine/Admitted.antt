-- ===== src/Engine/Admitted.antt =====
-- What the preflight establishes of an order that it lets pass.
use hyperliquid_copytrader.Base.{
  ℕ, ◌≤◌, ◌<◌, ◌≡◌, refl, Bool, true, false, ◌||◌, Option, none, some, ltb, leb, arith, inl, inr,
  ◌⊎◌,
}
use hyperliquid_copytrader.Base.Int.{pos}
use hyperliquid_copytrader.Journal.Records.{Result, ok, err, require, require-ok, >>=-returns}
use hyperliquid_copytrader.Engine.Precision.{
  DecimalContext, Decimal, finite, PrecisionError, quantize_size, quantize_price,
}
use hyperliquid_copytrader.Engine.Preflight.{
  OrderRequest, Checked, Reason, Amounts, is_placeable, side_of, is_spot, amounts_of, representable,
  known_side, lots_of, notional_of, is_exact_reduce_only_close, checked, preflight, below_one_lot,
  exceeds_cap, below_minimum, margin_check,
}

-- The leverage of an order that is not reduce-only, where it is known.
abbrev pub LeverageFits : OrderRequest → Bool → Option ℕ → Type 0
LeverageFits r false (some leverage) = (1 ≤ leverage) × (leverage ≤ r.rules.max_leverage)
LeverageFits r _ _ = Unit

-- An order that the venue's published rules and the local cap admit, in whole lots and at the rounded
-- price.
pub record Admitted (c : DecimalContext) (r : OrderRequest) : Type 0 where
  pub quantity : ℕ
  pub price : ℕ
  pub cap : ℕ
  pub rounded_price : ℕ
  pub quantity_is : r.requested_quantity ≡ finite (pos quantity)
  pub price_is : r.price ≡ finite (pos price)
  pub cap_is : r.max_order_notional_usd ≡ finite (pos cap)
  pub price_rounds :
      quantize_price c (finite (pos price)) r.rules.sz_decimals (is_spot r.rules) ≡ ok rounded_price
  pub is_a_lot : 0 < lots_of c r quantity
  pub within_request : lots_of c r quantity ≤ quantity
  pub within_cap : notional_of c r.rules (lots_of c r quantity) rounded_price ≤ cap
  pub large_enough :
      (r.rules.minimum_notional_usd ≤ notional_of c r.rules (lots_of c r quantity) rounded_price)
      ⊎ (is_exact_reduce_only_close r (lots_of c r quantity) ≡ true)
  pub leverage_fits : LeverageFits r r.reduce_only r.leverage

lots_of-below : (c : DecimalContext) (r : OrderRequest) (n : ℕ) → lots_of c r n ≤ n
unfolding quantize_size
lots_of-below c r n = grind arith

amounts_of-is :
    (q p m current : Decimal) (a : Amounts)
    → amounts_of q p m current ≡ ok a
    → (q ≡ finite (pos a.quantity)) × (p ≡ finite (pos a.price)) × (m ≡ finite (pos a.cap))
amounts_of-is q p m current a h = ground arith

margin_check-fits :
    (c : DecimalContext) (r : OrderRequest) (notional : ℕ) (reduce_only : Bool)
    (leverage margin : Option ℕ)
    → margin_check c r notional reduce_only leverage ≡ ok margin
    → LeverageFits r reduce_only leverage
margin_check-fits c r notional true leverage margin h = ground arith
margin_check-fits c r notional false none margin h = tt
margin_check-fits c r notional false (some leverage) margin h = ground arith

represented : (m : Result PrecisionError ℕ) (p : ℕ) → representable m ≡ ok p → m ≡ ok p
represented m p h = ground arith

pub leb-holds : (a b : ℕ) → leb a b ≡ true → a ≤ b
leb-holds a b h = ground arith

pub ltb-holds : (a b : ℕ) → ltb a b ≡ true → a < b
ltb-holds a b h = ground arith

passes_checks :
    (m : Result Reason Checked) → ((k : Checked) × (m ≡ ok k)) ⊎ ((e : Reason) × (m ≡ err e))
passes_checks (ok k) = inl (k, refl)
passes_checks (err e) = inr (e, refl)

either : (a b : Bool) → (a || b) ≡ true → (a ≡ true) ⊎ (b ≡ true)
either true b h = inl refl
either false b h = inr h

checked-Admitted :
    (c : DecimalContext) (r : OrderRequest) (k : Checked) → checked c r ≡ ok k → Admitted c r
unfolding checked
checked-Admitted c r k h =
    let (b, _, h₁) = >>=-returns (known_side (side_of r.side)) _ h in
    let (a, amounts, h₂) =
      >>=-returns
        (amounts_of r.requested_quantity r.price r.max_order_notional_usd r.current_position_size) _
        h₁ in
    let (price, rounds, h₃) =
      >>=-returns
        (representable
          (quantize_price c (finite (pos a.price)) r.rules.sz_decimals (is_spot r.rules)))
        _ h₂ in
    let lots = lots_of c r a.quantity in
    let (_, lot, h₄) = >>=-returns (require (ltb 0 lots) below_one_lot) _ h₃ in
    let notional = notional_of c r.rules lots price in
    let (_, fits, h₅) = >>=-returns (require (leb notional a.cap) exceeds_cap) _ h₄ in
    let enough = leb r.rules.minimum_notional_usd notional || is_exact_reduce_only_close r lots in
    let (_, large, h₆) = >>=-returns (require enough (below_minimum r.reduce_only)) _ h₅ in
    let (m, margin, _) = >>=-returns (margin_check c r notional r.reduce_only r.leverage) _ h₆ in
    let (q, p, cap) =
      amounts_of-is r.requested_quantity r.price r.max_order_notional_usd r.current_position_size a
        amounts in
    let lot_is : ltb 0 lots ≡ true = require-ok (ltb 0 lots) below_one_lot lot in
    let fits_is : leb notional a.cap ≡ true = require-ok (leb notional a.cap) exceeds_cap fits in
    record {
      quantity = a.quantity;
      price = a.price;
      cap = a.cap;
      rounded_price = price;
      quantity_is = q;
      price_is = p;
      cap_is = cap;
      price_rounds = represented _ price rounds;
      is_a_lot = ltb-holds 0 lots lot_is;
      within_request = lots_of-below c r a.quantity;
      within_cap = leb-holds notional a.cap fits_is;
      large_enough = elim (either _ _ (require-ok enough (below_minimum r.reduce_only) large)) [
        | inl l ↦ inl (leb-holds r.rules.minimum_notional_usd notional l)
        | inr e ↦ inr e
      ];
      leverage_fits = margin_check-fits c r notional r.reduce_only r.leverage m margin;
    }

-- An order that `preflight_hyperliquid_perp_order` lets pass is in whole lots that are at most what was
-- requested and more than nothing; its notional at the rounded price is within the cap, and reaches
-- the venue's minimum unless it closes the position exactly; and a known leverage of an order
-- that may add risk is between 1 and the market's.
pub preflight-Admitted :
    (c : DecimalContext) (r : OrderRequest)
    → is_placeable (preflight c r).eligibility ≡ true
    → Admitted c r
unfolding preflight
preflight-Admitted c r h = elim (passes_checks (checked c r)) [
  | inl (k, e) ↦ checked-Admitted c r k e
  | inr (reason, e) ↦ absurd (let t = (rw e at h) in cc)
]

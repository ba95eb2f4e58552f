-- ===== src/Engine/Limits.antt =====
-- An IOC limit lies inside its slippage envelope.
use hyperliquid_copytrader.Base.{
  ℕ, zero, suc, ◌+◌, ◌-◌, ◌*◌, ◌/◌, ◌%◌, ◌^◌, ◌≤◌, ◌<◌, ◌≡◌, refl, Bool, true, false, ltb, leb,
  arith, ◌⊎◌, inl, inr, Bool-cases,
}
use native.Mathlib.Nat.{div-mul-le_self, lt-div-mul-add, mul-mod_left, one-le-pow}
use hyperliquid_copytrader.Base.Int.{pos}
use hyperliquid_copytrader.Journal.Records.{ok, require, require-ok, >>=-returns, ok_injective}
use hyperliquid_copytrader.Engine.Admitted.{leb-holds, ltb-holds}
use hyperliquid_copytrader.Engine.Precision.{
  DecimalContext, Decimal, finite, one, price_not_positive, too_many_decimals, no_price_inside,
  floor_to, ceiling_to, sig_exponent, step_of, five_sig_step, limit_step, toward, slippage_factor,
  quantize_price_inside_limit, aggressive_ioc_price, positive_mid, slippage,
}

power_positive : (e : ℕ) → 0 < 10 ^ e
power_positive e = one-le-pow e 10 (omega arith)

-- `rounded` is a multiple of `step`, on the permitted side of `price` and less than a step away.
pub record IsInside (is_buy : Bool) (step price rounded : ℕ) : Type 0 where
  pub multiple : rounded % step ≡ 0
  pub below : is_buy ≡ true → (rounded ≤ price) × (price < rounded + step)
  pub above : is_buy ≡ false → (price ≤ rounded) × (rounded < price + step)

multiple_of : (k step : ℕ) → k * step % step ≡ 0
multiple_of k step = mul-mod_left k step

floor_to-bounds : (step n : ℕ) → 0 < step → (floor_to step n ≤ n) × (n < floor_to step n + step)
floor_to-bounds step n h = (div-mul-le_self n step, lt-div-mul-add h)

ceiling_to-bounds :
    (step n : ℕ) → 0 < step → (n ≤ ceiling_to step n) × (ceiling_to step n < n + step)
ceiling_to-bounds step n h =
    let low = div-mul-le_self (n + (step - 1)) step in
    let high = lt-div-mul-add {a = n + (step - 1)} h in (omega arith, omega arith)

toward-IsInside :
    (c : DecimalContext) (is_buy : Bool) (step price : ℕ)
    → 0 < step
    → IsInside is_buy step price (toward c is_buy step price)
toward-IsInside c true step price h = record {
  multiple = multiple_of (price / step) step;
  below = λ e. floor_to-bounds step price h;
  above = λ e. absurd (cc);
}
toward-IsInside c false step price h = record {
  multiple = multiple_of ((price + (step - 1)) / step) step;
  below = λ e. absurd (cc);
  above = λ e. ceiling_to-bounds step price h;
}

-- The exponent leaves at most five figures above it, and takes no more than that needs.
pub sig_exponent_lem :
    (q n : ℕ)
    → ((sig_exponent q n ≡ 0) ⊎ (10 ^ (sig_exponent q n + 4) ≤ n))
      × ((sig_exponent q n ≡ q) ⊎ (n < 10 ^ (sig_exponent q n + 5)))
      × (sig_exponent q n ≤ q)
sig_exponent_lem zero n = ground arith
sig_exponent_lem (suc q) n = elim (Bool-cases (leb (10 ^ (q + 5)) n)) [
  | inl e ↦
      let large : 10 ^ (q + 5) ≤ n = leb-holds (10 ^ (q + 5)) n e in
      let same : suc q + 4 ≡ q + 5 = omega arith in
      rw e (inr (rw same large), inl refl, omega arith)
  | inr e ↦
      let small : n < 10 ^ (q + 5) = ground arith in
      let (low, high, within) = sig_exponent_lem q n in
      rw e (low, inr (elim high [ inr h ↦ h | inl h ↦ rw h small ]), omega arith)
]

limit_step-positive : (c : DecimalContext) (d price : ℕ) → 0 < limit_step c d price
limit_step-positive c d price =
    elim (Bool-cases (ltb (five_sig_step c price) (step_of c (6 - d)))) [
      | inl e ↦ rw e (power_positive (c.quantum_digits - (6 - d)))
      | inr e ↦ rw e (power_positive (sig_exponent c.quantum_digits price))
    ]

-- What an accepted limit price is.
pub record Limit (c : DecimalContext) (is_buy : Bool) (mid slippage_bps : Decimal) (d rounded : ℕ)
    : Type 0 where
  pub price : ℕ
  pub bps : ℕ
  pub mid_is : mid ≡ finite (pos price)
  pub slippage_is : slippage_bps ≡ finite (pos bps)
  pub in_range : bps < 10000 * one c
  pub some_price : 0 < rounded
  pub inside :
      IsInside is_buy
        (limit_step c d (c.times price (slippage_factor c is_buy bps)))
        (c.times price (slippage_factor c is_buy bps))
        rounded

quantized-IsInside :
    (c : DecimalContext) (is_buy : Bool) (price d rounded : ℕ)
    → quantize_price_inside_limit c price d is_buy ≡ ok rounded
    → IsInside is_buy (limit_step c d price) price rounded × (0 < rounded)
unfolding quantize_price_inside_limit
quantized-IsInside c is_buy price d rounded h =
    let (_, _, h₁) = >>=-returns (require (ltb 0 price) price_not_positive) _ h in
    let (_, _, h₂) = >>=-returns (require (leb d 6) too_many_decimals) _ h₁ in
    let step = limit_step c d price in
    let result = toward c is_buy step price in
    let (_, some_price, h₃) = >>=-returns (require (ltb 0 result) no_price_inside) _ h₂ in
    let same = ok_injective result rounded h₃ in
    rw (← same) (
      toward-IsInside c is_buy step price (limit_step-positive c d price),
      ltb-holds 0 result (require-ok (ltb 0 result) no_price_inside some_price),
    )

positive_mid-is :
    (c : DecimalContext) (mid : Decimal) (n : ℕ) → positive_mid c mid ≡ ok n → mid ≡ finite (pos n)
positive_mid-is c mid n h = ground arith

slippage-is :
    (c : DecimalContext) (v : Decimal) (n : ℕ)
    → slippage c v ≡ ok n
    → (v ≡ finite (pos n)) × (n < 10000 * one c)
slippage-is c v n h = ground arith

-- The limit that `aggressive_ioc_price` returns is positive and a multiple of the price quantum. It is on
-- the permitted side of the mid with its slippage, less than one quantum away: a buy never
-- pays more, a sale never takes less.
pub aggressive_ioc_price-Limit :
    (c : DecimalContext) (mid : Decimal) (is_buy : Bool) (slippage_bps : Decimal) (d rounded : ℕ)
    → aggressive_ioc_price c mid is_buy slippage_bps d ≡ ok rounded
    → Limit c is_buy mid slippage_bps d rounded
unfolding aggressive_ioc_price
aggressive_ioc_price-Limit c mid is_buy slippage_bps d rounded h =
    let (price, e₁, h₁) = >>=-returns (positive_mid c mid) _ h in
    let (bps, e₂, h₂) = >>=-returns (slippage c slippage_bps) _ h₁ in
    let raw = c.times price (slippage_factor c is_buy bps) in
    let (inside, some_price) = quantized-IsInside c is_buy raw d rounded h₂ in
    let (v, range) = slippage-is c slippage_bps bps e₂ in
    record {
      price = price;
      bps = bps;
      mid_is = positive_mid-is c mid price e₁;
      slippage_is = v;
      in_range = range;
      some_price = some_price;
      inside = inside;
    }

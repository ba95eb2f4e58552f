-- ===== src/Engine/Precision.antt =====
-- The rounding rules of precision.py.
--
-- A decimal is a number of quanta 10^-q. Sums and comparisons are exact; `times` and `over` are the
-- product and the quotient of Python's decimal context, which rounds them to its 28 digits.
use hyperliquid_copytrader.Base.{
  ℕ, zero, suc, ◌+◌, ◌-◌, ◌*◌, ◌/◌, ◌%◌, ◌^◌, Bool, true, false, ltb, leb, ◌==◌, if◌then◌else◌,
}
use hyperliquid_copytrader.Base.Int.{ℤ, pos, negsuc, ◌-ℤ◌}
use hyperliquid_copytrader.Wire.Json.{magnitude}
use hyperliquid_copytrader.Journal.Records.{Result, ok, err, ◌>>=◌, ◌>>◌, require}

pub record DecimalContext : Type 0 where
  pub quantum_digits : ℕ
  pub times : ℕ → ℕ → ℕ
  pub over : ℕ → ℕ → ℕ

-- A `Decimal`, which may be an infinity or a NaN.
pub data Decimal : Type 0 where
  not_finite : Decimal
  finite : ℤ → Decimal

pub data PrecisionError : Type 0 where
  price_not_positive too_many_decimals no_price_inside bad_mid bad_slippage : PrecisionError

-- Multiples of `step` at or below `n`, at or above it, and nearest to it, a tie going up.
abbrev pub floor_to : ℕ → ℕ → ℕ
floor_to step n = n / step * step

abbrev pub ceiling_to : ℕ → ℕ → ℕ
ceiling_to step n = (n + (step - 1)) / step * step

abbrev pub half_up_to : ℕ → ℕ → ℕ
half_up_to step n = (n + step / 2) / step * step

-- The integer with a sign and a magnitude, `copy_sign`.
abbrev pub with_sign : ℤ → ℕ → ℤ
with_sign (pos n) m = pos m
with_sign (negsuc n) m = pos 0 -ℤ pos m

-- The exponent, above the quantum's, of the last of five significant figures of `n`, not above `q`.
abbrev pub sig_exponent : ℕ → ℕ → ℕ
sig_exponent zero n = 0
sig_exponent (suc e) n = if leb (10 ^ (e + 5)) n then suc e else sig_exponent e n

module _ (c : DecimalContext) where
  -- `Decimal(1)`
  abbrev pub one : ℕ
  one = 10 ^ c.quantum_digits

  -- `Decimal(1).scaleb(-d)`; what is finer than a quantum divides every number of quanta.
  abbrev pub step_of : ℕ → ℕ
  step_of d = 10 ^ (c.quantum_digits - d)

  -- `quantize_size` of a finite size, toward zero
  unfoldable pub quantize_size : ℤ → ℕ → ℤ
  quantize_size size sz_decimals = with_sign size (floor_to (step_of sz_decimals) (magnitude size))

  -- The quantum of `_five_sig`, 10^-max(0, 4 - adjusted).
  abbrev pub five_sig_step : ℕ → ℕ
  five_sig_step price = 10 ^ sig_exponent c.quantum_digits price

  -- `_five_sig`
  abbrev pub five_sig : ℕ → ℕ
  five_sig price = half_up_to (five_sig_step price) price

  abbrev pub decimal_budget : Bool → ℕ
  decimal_budget true = 8
  decimal_budget false = 6

  abbrev rounded_price : ℕ → ℕ → ℕ
  rounded_price max_decimals rounded =
      if rounded % one == 0 then rounded else half_up_to (step_of max_decimals) rounded

  abbrev pub positive_price : Decimal → Result PrecisionError ℕ
  positive_price (finite (pos n)) = do require (ltb 0 n) price_not_positive; ok n
  positive_price _ = err price_not_positive

  -- `quantize_price`
  unfoldable pub quantize_price : Decimal → ℕ → Bool → Result PrecisionError ℕ
  quantize_price price sz_decimals is_spot = do
    value ← positive_price price
    require (leb sz_decimals (decimal_budget is_spot)) too_many_decimals
    ok (rounded_price (decimal_budget is_spot - sz_decimals) (five_sig value))

  -- The coarser of the two quanta.
  abbrev pub limit_step : ℕ → ℕ → ℕ
  limit_step sz_decimals price =
      if ltb (five_sig_step price) (step_of (6 - sz_decimals))
      then step_of (6 - sz_decimals)
      else five_sig_step price

  abbrev pub toward : Bool → ℕ → ℕ → ℕ
  toward true step price = floor_to step price
  toward false step price = ceiling_to step price

  -- `_quantize_price_inside_limit`
  unfoldable pub quantize_price_inside_limit : ℕ → ℕ → Bool → Result PrecisionError ℕ
  quantize_price_inside_limit price sz_decimals is_buy = do
    require (ltb 0 price) price_not_positive
    require (leb sz_decimals 6) too_many_decimals
    let rounded = toward is_buy (limit_step sz_decimals price) price
    require (ltb 0 rounded) no_price_inside
    ok rounded

  abbrev pub slippage : Decimal → Result PrecisionError ℕ
  slippage (finite (pos bps)) = do require (ltb bps (10000 * one)) bad_slippage; ok bps
  slippage (finite (negsuc n)) = err bad_slippage
  slippage not_finite = err bad_mid

  abbrev pub positive_mid : Decimal → Result PrecisionError ℕ
  positive_mid (finite (pos n)) = do require (ltb 0 n) bad_mid; ok n
  positive_mid _ = err bad_mid

  -- `1 + bps / 10000` for a buy, `1 - bps / 10000` for a sale
  abbrev pub slippage_factor : Bool → ℕ → ℕ
  slippage_factor true bps = one + c.over bps (10000 * one)
  slippage_factor false bps = one - c.over bps (10000 * one)

  -- `aggressive_ioc_price`
  unfoldable pub aggressive_ioc_price : Decimal → Bool → Decimal → ℕ → Result PrecisionError ℕ
  aggressive_ioc_price mid is_buy slippage_bps sz_decimals = do
    price ← positive_mid mid
    bps ← slippage slippage_bps
    quantize_price_inside_limit (c.times price (slippage_factor is_buy bps)) sz_decimals is_buy

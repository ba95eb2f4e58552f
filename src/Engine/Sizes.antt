-- ===== src/Engine/Sizes.antt =====
-- The arithmetic of an order's size: it is a part of the way from the confirmed size to the desired one.
use hyperliquid_copytrader.Base.{ℕ, ◌≤◌, ◌<◌, ◌≡◌, true, false, arith}
use hyperliquid_copytrader.Base.Int.{ℤ, pos, pos_part, neg_part, ◌+ℤ◌, ◌-ℤ◌, int_laws}
use hyperliquid_copytrader.Wire.Json.{magnitude}
use hyperliquid_copytrader.Engine.Precision.{
  DecimalContext, step_of, quantize_size, with_sign, floor_to,
}
use hyperliquid_copytrader.Engine.Preflight.{is_zero}
use hyperliquid_copytrader.Engine.Choose.{reverses, raw_size, reduces_only, capped, shrinks}

-- `s` has the sign of `z`, or is zero, and is not longer.
pub record IsPartOf (s z : ℤ) : Type 0 where
  pub up : pos_part s ≤ pos_part z
  pub down : neg_part s ≤ neg_part z

floor_to-below : (step n : ℕ) → floor_to step n ≤ n
floor_to-below step n = grind arith

pub with_sign-IsPartOf : (z : ℤ) (m : ℕ) → m ≤ magnitude z → IsPartOf (with_sign z m) z
unfolding ◌-ℤ◌
with_sign-IsPartOf z m h = record { up = ground arith; down = ground arith }

pub capped-IsPartOf : (max_size : ℕ) (z : ℤ) → IsPartOf (capped max_size z) z
unfolding capped ◌-ℤ◌
capped-IsPartOf max_size z = record { up = ground arith; down = ground arith }

pub quantize_size-IsPartOf : (c : DecimalContext) (z : ℤ) (d : ℕ) → IsPartOf (quantize_size c z d) z
unfolding quantize_size
quantize_size-IsPartOf c z d =
    with_sign-IsPartOf z (floor_to (step_of c d) (magnitude z))
      (floor_to-below (step_of c d) (magnitude z))

pub IsPartOf-trans : (a b c : ℤ) → IsPartOf a b → IsPartOf b c → IsPartOf a c
IsPartOf-trans a b c h k =
    let p = h.up in
    let q = h.down in
    let r = k.up in let t = k.down in record { up = omega arith; down = omega arith }

raw_size-IsPartOf :
    (desired confirmed : ℤ) → IsPartOf (raw_size desired confirmed) (desired -ℤ confirmed)
unfolding raw_size reverses ◌-ℤ◌
raw_size-IsPartOf desired confirmed = record { up = ground arith; down = ground arith }

shorter_by_part : (s z : ℤ) → IsPartOf s z → is_zero s ≡ false → magnitude (z -ℤ s) < magnitude z
unfolding ◌-ℤ◌
shorter_by_part s z h n = let p = h.up in let q = h.down in ground arith

minus_sum : (a b c : ℤ) → a -ℤ (b +ℤ c) ≡ a -ℤ b -ℤ c
minus_sum a b c = omega int_laws

-- An order towards the target ends nearer to it.
pub nearer :
    (desired confirmed s : ℤ)
    → IsPartOf s (raw_size desired confirmed)
    → is_zero s ≡ false
    → magnitude (desired -ℤ (confirmed +ℤ s)) < magnitude (desired -ℤ confirmed)
nearer desired confirmed s h n = rw (minus_sum desired confirmed s) (
    shorter_by_part s (desired -ℤ confirmed)
      (IsPartOf-trans s (raw_size desired confirmed) (desired -ℤ confirmed) h
        (raw_size-IsPartOf desired confirmed))
      n)

-- A reduction leaves a part of the confirmed position.
pub reduction_leaves :
    (desired confirmed s : ℤ)
    → IsPartOf s (raw_size desired confirmed)
    → reduces_only desired confirmed ≡ true
    → IsPartOf (confirmed +ℤ s) confirmed
unfolding reduces_only raw_size reverses ◌-ℤ◌ ◌+ℤ◌
reduction_leaves desired confirmed s h r =
    let p = h.up in let q = h.down in record { up = ground arith; down = ground arith }

-- Any other order adds to the confirmed position, and does not pass the target.
pub increase_stays :
    (desired confirmed s : ℤ)
    → IsPartOf s (raw_size desired confirmed)
    → reduces_only desired confirmed ≡ false
    → IsPartOf confirmed (confirmed +ℤ s) × IsPartOf (confirmed +ℤ s) desired
unfolding reduces_only raw_size reverses ◌-ℤ◌ ◌+ℤ◌
increase_stays desired confirmed s h r =
    let p = h.up in
    let q = h.down in
    (
      record { up = ground arith; down = ground arith },
      record { up = ground arith; down = ground arith },
    )

-- A part of the whole close leaves a part of the confirmed position.
pub close_leaves :
    (confirmed s : ℤ) → IsPartOf s (pos 0 -ℤ confirmed) → IsPartOf (confirmed +ℤ s) confirmed
unfolding ◌-ℤ◌ ◌+ℤ◌
close_leaves confirmed s h =
    let p = h.up in let q = h.down in record { up = ground arith; down = ground arith }

-- An order is reduce-only exactly where the market needs a reduction.
pub reduces_only_lem :
    (desired confirmed : ℤ) → reduces_only desired confirmed ≡ shrinks desired confirmed
unfolding reduces_only raw_size reverses ◌-ℤ◌ shrinks
reduces_only_lem desired confirmed = ground arith

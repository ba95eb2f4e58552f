-- ===== src/Base/Text.antt =====
-- Python strings as lists of code points: equality, order, `strip` and `lower`.
-- `lower` changes the ASCII letters and leaves every other code point alone.
use hyperliquid_copytrader.Base.{
  ℕ, ◌+◌, ◌≡◌, refl, ◌↔◌, Bool, true, false, ◌&&◌, ◌||◌, List, [], ◌∷◌, ◌++◌, map, not, arith, ltb,
  leb, ◌==◌, if◌then◌else◌,
}
use Prim.Native.Char.{code}
use Prim.Native.String.{String}
use mathlib.Core.List.{reverse, reverse-cons, reverse-reverse}

abbrev pub Text : Type 0
Text = List ℕ

-- The code points of a literal.
abbrev pub codes : String → Text
codes String.[] = []
codes (String.◌∷◌ c s) = code c ∷ codes s

unfoldable pub text_eq : Text → Text → Bool
text_eq [] [] = true
text_eq (c ∷ s) (d ∷ t) = c == d && text_eq s t
text_eq _ _ = false

pub text_eq_iff : (s t : Text) → (text_eq s t ≡ true) ↔ (s ≡ t)
unfolding text_eq
text_eq_iff [] [] = ground arith
text_eq_iff [] (d ∷ t) = ground arith
text_eq_iff (c ∷ s) [] = ground arith
text_eq_iff (c ∷ s) (d ∷ t) = ground (arith, text_eq_iff s t)

pub text_eq_refl : (s : Text) → text_eq s s ≡ true
text_eq_refl s = (text_eq_iff s s).1 refl

-- `s < t` in the order of code points, as SQLite and Python compare.
unfoldable pub text_lt : Text → Text → Bool
text_lt [] [] = false
text_lt [] (d ∷ t) = true
text_lt (c ∷ s) [] = false
text_lt (c ∷ s) (d ∷ t) = ltb c d || (c == d && text_lt s t)

abbrev pub is_space : ℕ → Bool
is_space c = (leb 9 c && leb c 13) || (leb 28 c && leb c 32)

strip_left : Text → Text
strip_left [] = []
strip_left (c ∷ s) = if is_space c then strip_left s else c ∷ s

unfoldable pub strip : Text → Text
unfolding strip_left
strip s = reverse (strip_left (reverse (strip_left s)))

abbrev lower_code : ℕ → ℕ
lower_code c = if leb b'A' c && leb c b'Z' then c + 32 else c

unfoldable pub lower : Text → Text
lower s = map lower_code s

-- Lowering twice is lowering once.
pub lower-lower : (s : Text) → lower (lower s) ≡ lower s
unfolding lower
lower-lower [] = refl
lower-lower (c ∷ s) = ground (arith, lower-lower s)

-- The order is asymmetric, its complement is transitive.
pub text_lt_asym : (s t : Text) → text_lt s t ≡ true → text_lt t s ≡ false
unfolding text_lt
text_lt_asym [] [] h = cc
text_lt_asym [] (d ∷ t) h = refl
text_lt_asym (c ∷ s) [] h = cc
text_lt_asym (c ∷ s) (d ∷ t) h = ground (arith, text_lt_asym s t)

pub text_le_trans : (r s t : Text) → text_lt s r ≡ false → text_lt t s ≡ false → text_lt t r ≡ false
unfolding text_lt
text_le_trans [] [] [] h k = refl
text_le_trans [] [] (e ∷ t) h k = refl
text_le_trans [] (d ∷ s) [] h k = refl
text_le_trans [] (d ∷ s) (e ∷ t) h k = refl
text_le_trans (c ∷ r) [] t h k = cc
text_le_trans (c ∷ r) (d ∷ s) [] h k = cc
text_le_trans (c ∷ r) (d ∷ s) (e ∷ t) h k = ground (arith, text_le_trans r s t)

-- A text without white space is its own `strip`.
abbrev pub spaceless : Text → Bool
spaceless [] = true
spaceless (c ∷ s) = not (is_space c) && spaceless s

strip_left-spaceless : (s : Text) → spaceless s ≡ true → strip_left s ≡ s
unfolding strip_left
strip_left-spaceless [] h = refl
strip_left-spaceless (c ∷ s) h = ground arith

spaceless-append :
    (s t : Text) → spaceless s ≡ true → spaceless t ≡ true → spaceless (s ++ t) ≡ true
spaceless-append [] t h k = k
spaceless-append (c ∷ s) t h k = ground (arith, spaceless-append s t)

spaceless-reverse : (s : Text) → spaceless s ≡ true → spaceless (reverse s) ≡ true
spaceless-reverse [] h = refl
spaceless-reverse (c ∷ s) h =
    rw (reverse-cons c s)
      (spaceless-append (reverse s) (c ∷ []) (spaceless-reverse s (ground arith)) (ground arith))

pub strip-spaceless : (s : Text) → spaceless s ≡ true → strip s ≡ s
unfolding strip
strip-spaceless s h =
    rw
      (
        strip_left-spaceless s h,
        strip_left-spaceless (reverse s) (spaceless-reverse s h),
        reverse-reverse s,
      )
      refl

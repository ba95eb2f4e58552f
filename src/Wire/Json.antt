-- ===== src/Wire/Json.antt =====
-- The values that `json.loads` returns, as ws_actions.py and reconciliation.py read them.
--
-- A number or a string is kept with what `Decimal(str(value))` and `int(value)` make of it. The
-- fields of an object have distinct keys, in the order of the text; an absent key reads as null,
-- as `dict.get` does.
use hyperliquid_copytrader.Base.{
  ℕ, Bool, true, false, not, List, [], ◌∷◌, Option, none, some, if◌then◌else◌, suc, ◌==◌,
}
use hyperliquid_copytrader.Base.Int.{ℤ, pos, negsuc}
use hyperliquid_copytrader.Base.Text.{Text, text_eq, strip, is_space}
use hyperliquid_copytrader.Journal.Records.{DecimalText, malformed, finite}

pub record Numeric : Type 0 where
  pub decimal : DecimalText
  pub integer : Option ℤ

mutual
  pub data Json : Type 0 where
    null : Json
    bool : Bool → Json
    number : Numeric → Json
    string : Text → Numeric → Json
    array : Items → Json
    object : Fields → Json

  pub data Items : Type 0 where
    nil : Items
    cons : Json → Items → Items

  pub data Fields : Type 0 where
    end : Fields
    field : Text → Json → Fields → Fields

unfoldable pub look_up : Text → Fields → Option Json
look_up key end = none
look_up key (field k v fs) = if text_eq k key then some v else look_up key fs

abbrev or_null : Option Json → Json
or_null none = null
or_null (some v) = v

-- `fields.get(key)`
unfoldable pub get : Text → Fields → Json
unfolding look_up
get key fs = or_null (look_up key fs)

abbrev pub decimal_of : Json → DecimalText
decimal_of (number n) = n.decimal
decimal_of (string t n) = n.decimal
decimal_of _ = malformed

abbrev pub int_of : Json → Option ℤ
int_of (bool false) = some (pos 0)
int_of (bool true) = some (pos 1)
int_of (number n) = n.integer
int_of (string t n) = n.integer
int_of _ = none

abbrev pub is_text : Text → Json → Bool
is_text word (string t n) = text_eq t word
is_text word _ = false

abbrev zero_decimal : DecimalText → Bool
zero_decimal (finite (pos n)) = n == 0
zero_decimal _ = false

abbrev is_empty {ℓ} : {A : Type ℓ} → List A → Bool
is_empty [] = true
is_empty (x ∷ xs) = false

abbrev no_items : Items → Bool
no_items nil = true
no_items (cons x xs) = false

abbrev no_fields : Fields → Bool
no_fields end = true
no_fields (field k v fs) = false

-- What `value or other` keeps.
abbrev pub truthy : Json → Bool
truthy null = false
truthy (bool b) = b
truthy (number n) = not (zero_decimal n.decimal)
truthy (string t n) = not (is_empty t)
truthy (array xs) = not (no_items xs)
truthy (object fs) = not (no_fields fs)

-- `abs` of an integer number of quanta.
abbrev pub magnitude : ℤ → ℕ
magnitude (pos n) = n
magnitude (negsuc n) = suc n

abbrev starts_space : Text → Bool
starts_space [] = true
starts_space (c ∷ s) = is_space c

collapse : Text → Text
collapse [] = []
collapse (c ∷ s) =
    let rest = collapse s in
    if is_space c then (if starts_space rest then rest else b' ' ∷ rest) else c ∷ rest

-- `" ".join(text.split())`
unfoldable pub squash : Text → Text
unfolding collapse
squash s = strip (collapse s)

-- ===== src/Markets/Identity.antt =====
-- `MarketIdentity`, `parse_market` and the functions on top of it (markets.py). A name that is not a
-- string is refused as `not_a_string`; here the argument is the text.
use hyperliquid_copytrader.Base.{
  ℕ, ◌+◌, ◌-◌, Bool, true, false, not, ◌&&◌, ◌||◌, [], ◌∷◌, ◌++◌, map, Option, none, some, leb,
  ◌==◌, if◌then◌else◌, length,
}
use hyperliquid_copytrader.Base.Text.{Text, text_eq, strip}
use hyperliquid_copytrader.Journal.Records.{Result, ok, ◌>>=◌, ◌>>◌, require}

pub data MarketIdentityError : Type 0 where
  not_a_string empty_market many_colons empty_dex empty_asset : MarketIdentityError
  bad_asset bad_dex lowercase_asset dex_conflict : MarketIdentityError

pub record MarketIdentity : Type 0 where
  pub asset : Text
  pub dex : Option Text

abbrev pub is_lower : ℕ → Bool
is_lower c = leb b'a' c && leb c b'z'

abbrev pub is_upper : ℕ → Bool
is_upper c = leb b'A' c && leb c b'Z'

abbrev is_digit : ℕ → Bool
is_digit c = leb b'0' c && leb c b'9'

abbrev is_alnum : ℕ → Bool
is_alnum c = is_lower c || is_upper c || is_digit c

abbrev pub all_of : (ℕ → Bool) → Text → Bool
all_of p [] = true
all_of p (c ∷ s) = p c && all_of p s

abbrev pub asset_first : ℕ → Bool
asset_first c = is_alnum c || c == b'$'

abbrev pub asset_next : ℕ → Bool
asset_next c = is_alnum c || c == b'_' || c == b'$' || c == b'*' || c == b'.' || c == b'-'

abbrev pub dex_next : ℕ → Bool
dex_next c = is_alnum c || c == b'_' || c == b'.' || c == b'<' || c == b'>' || c == b'-'

-- _ASSET_COMPONENT_RE
unfoldable pub is_asset_component : Text → Bool
is_asset_component [] = false
is_asset_component (c ∷ s) = asset_first c && leb (length s) 31 && all_of asset_next s

-- _DEX_COMPONENT_RE
unfoldable pub is_dex_component : Text → Bool
is_dex_component [] = false
is_dex_component (c ∷ s) = is_alnum c && leb (length s) 15 && all_of dex_next s

abbrev pub any_lower : Text → Bool
any_lower [] = false
any_lower (c ∷ s) = is_lower c || any_lower s

abbrev pub any_upper : Text → Bool
any_upper [] = false
any_upper (c ∷ s) = is_upper c || any_upper s

-- `value.islower()` of an ASCII text: a letter, and none in upper case.
unfoldable pub islower : Text → Bool
islower s = any_lower s && not (any_upper s)

abbrev pub upper_code : ℕ → ℕ
upper_code c = if is_lower c then c - 32 else c

abbrev pub upper : Text → Text
upper s = map upper_code s

-- `_canonical_asset`
unfoldable pub canonical_asset : Text → Text
unfolding islower
canonical_asset value = if islower value then upper value else value

abbrev pub dex_is_component : Option Text → Result MarketIdentityError (Unit {0})
dex_is_component none = ok tt
dex_is_component (some dex) = do
  require (not (text_eq dex [])) empty_dex
  require (is_dex_component dex) bad_dex

-- The constructor with `__post_init__`.
unfoldable pub market_identity : Text → Option Text → Result MarketIdentityError MarketIdentity
market_identity asset dex = do
  require (is_asset_component asset) bad_asset
  require (not (islower asset)) lowercase_asset
  dex_is_component dex
  ok (record { asset = asset; dex = dex })

abbrev pub canonical_of : Text → Option Text → Text
canonical_of asset none = asset
canonical_of asset (some dex) = dex ++ (b':' ∷ asset)

-- `canonical`
abbrev pub canonical : MarketIdentity → Text
canonical m = canonical_of m.asset m.dex

abbrev pub count_colons : Text → ℕ
count_colons [] = 0
count_colons (c ∷ s) = (if c == b':' then 1 else 0) + count_colons s

-- The text before and after the first colon.
abbrev pub before_colon : Text → Text
before_colon [] = []
before_colon (c ∷ s) = if c == b':' then [] else c ∷ before_colon s

abbrev pub after_colon : Text → Text
after_colon [] = []
after_colon (c ∷ s) = if c == b':' then s else after_colon s

abbrev pub parse_default : Text → Result MarketIdentityError MarketIdentity
parse_default raw = do
  require (is_asset_component raw) bad_asset
  market_identity (canonical_asset raw) none

abbrev pub parse_qualified : Text → Text → Result MarketIdentityError MarketIdentity
parse_qualified dex asset = do
  require (not (text_eq dex [])) empty_dex
  require (not (text_eq asset [])) empty_asset
  require (is_dex_component dex) bad_dex
  require (is_asset_component asset) bad_asset
  market_identity (canonical_asset asset) (some dex)

-- `parse_market` of a stripped text
unfoldable pub parse_stripped : Text → Result MarketIdentityError MarketIdentity
parse_stripped raw = do
  require (not (text_eq raw [])) empty_market
  require (leb (count_colons raw) 1) many_colons
  if count_colons raw == 0
      then parse_default raw
      else parse_qualified (before_colon raw) (after_colon raw)

-- `parse_market`
unfoldable pub parse_market : Text → Result MarketIdentityError MarketIdentity
parse_market value = parse_stripped (strip value)

-- `canonical_market`, which `canonical_market_symbol` calls
unfoldable pub canonical_market : Text → Result MarketIdentityError Text
canonical_market value = do m ← parse_market value; ok (canonical m)

abbrev or_empty : Option Text → Text
or_empty none = []
or_empty (some dex) = dex

-- `market_dex`
unfoldable pub market_dex : Text → Result MarketIdentityError Text
market_dex value = do m ← parse_market value; ok (or_empty m.dex)

abbrev pub qualified : Text → Text → Option Text → Result MarketIdentityError Text
qualified dex asset (some own) = do
  require (text_eq dex [] || text_eq own dex) dex_conflict
  ok (canonical_of asset (some own))
qualified dex asset none =
    if text_eq dex [] then ok asset else (do m ← market_identity asset (some dex); ok (canonical m))

-- `qualify_market_symbol`
unfoldable pub qualify_market_symbol : Text → Text → Result MarketIdentityError Text
qualify_market_symbol dex coin = do
  let normalized_dex = strip dex
  require (text_eq normalized_dex [] || is_dex_component normalized_dex) bad_dex
  m ← parse_market coin
  qualified normalized_dex m.asset m.dex

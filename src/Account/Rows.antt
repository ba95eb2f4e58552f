-- ===== src/Account/Rows.antt =====
-- Rows of account frames (account_stream.py: `_account`, `_positive_int`, `_parse_fill`; `parse_decimal`
-- of models.py).
--
-- The two parameters are Python's `str` of a JSON value that is not a string, and `int` of a text.
use hyperliquid_copytrader.Base.{
  ℕ, Bool, true, false, not, ◌&&◌, ◌||◌, [], ◌∷◌, Option, none, some, ltb, leb, ◌==◌, if◌then◌else◌,
  length,
}
use hyperliquid_copytrader.Base.Int.{ℤ, pos, negsuc}
use hyperliquid_copytrader.Base.Text.{Text, codes, text_eq, strip, lower}
use hyperliquid_copytrader.Journal.Records.{
  Result, ok, err, ◌>>=◌, ◌>>◌, require, DecimalText, finite,
}
use hyperliquid_copytrader.Wire.Json as Wire
use hyperliquid_copytrader.Wire.Json.{
  Json, null, bool, number, string, array, object, Items, Fields, get, decimal_of, truthy,
}
use hyperliquid_copytrader.Markets.Identity.{canonical_market, all_of, MarketIdentityError}
use hyperliquid_copytrader.Account.Records.{
  AccountStreamError, Side, buy, sell, FillRecord, bad_account, bad_market, bad_number,
  missing_hash, missing_tid, bad_side, missing_size_or_price, not_positive,
}

abbrev hex_code : ℕ → Bool
hex_code c = (leb b'0' c && leb c b'9') || (leb b'a' c && leb c b'f')

-- _ADDRESS_RE
abbrev is_address : Text → Bool
is_address (zero_code ∷ x_code ∷ digits) =
    zero_code == b'0' && x_code == b'x' && length digits == 40 && all_of hex_code digits
is_address _ = false

-- `_account`
unfoldable pub account_of : Text → Result AccountStreamError Text
account_of value = do
  let account = lower (strip value)
  require (is_address account) bad_account
  ok account

abbrev market_of_text : Result MarketIdentityError Text → Result AccountStreamError Text
market_of_text (err e) = err bad_market
market_of_text (ok market) = ok market

-- `canonical_market_symbol` of a JSON value
abbrev pub market_of : Json → Result AccountStreamError Text
market_of (string t n) = market_of_text (canonical_market t)
market_of _ = err bad_market

abbrev finite_of : DecimalText → Result AccountStreamError ℤ
finite_of (finite z) = ok z
finite_of _ = err bad_number

-- `parse_decimal`
abbrev pub parse_decimal : Json → Result AccountStreamError ℤ
parse_decimal null = ok (pos 0)
parse_decimal v = finite_of (decimal_of v)

-- A number of quanta that must be positive.
abbrev pub positive : ℤ → Result AccountStreamError ℕ
positive (pos n) = do require (ltb 0 n) not_positive; ok n
positive (negsuc n) = err not_positive

-- `value in (None, "")`
abbrev pub absent : Json → Bool
absent null = true
absent (string t n) = text_eq t []
absent _ = false

abbrev hash_text : Json → Result AccountStreamError Text
hash_text (string t n) = do require (not (text_eq (strip t) [])) missing_hash; ok (lower (strip t))
hash_text _ = err missing_hash

abbrev side_of : Text → Result AccountStreamError Side
side_of t =
    if text_eq t (codes "b") || text_eq t (codes "buy")
    then ok buy
    else if text_eq t (codes "a") || text_eq t (codes "s") || text_eq t (codes "sell")
    then ok sell
    else err bad_side

-- The value of a key that must be there; null counts as there.
abbrev pub present : AccountStreamError → Option Json → Result AccountStreamError Json
present error none = err error
present error (some v) = ok v

abbrev pub start_of : Json → Result AccountStreamError (Option ℤ)
start_of v = if absent v then ok none else (do d ← parse_decimal v; ok (some d))

module _ (shown : Json → Text) (int_text : Text → Option ℤ) where
  -- `str(value)`
  abbrev pub text_of : Json → Text
  text_of (string t n) = t
  text_of v = shown v

  -- `str(value or "")`
  abbrev pub text_or_empty : Json → Text
  text_or_empty v = if truthy v then text_of v else []

  abbrev positive_of : Option ℤ → Result AccountStreamError ℕ
  positive_of none = err bad_number
  positive_of (some (negsuc n)) = err bad_number
  positive_of (some (pos n)) = do require (ltb 0 n) bad_number; ok n

  -- `_positive_int`
  abbrev pub positive_int : Json → Result AccountStreamError ℕ
  positive_int (bool b) = err bad_number
  positive_int v = positive_of (int_text (text_of v))

  abbrev tid_text : Json → Result AccountStreamError Text
  tid_text null = err missing_tid
  tid_text (bool b) = err missing_tid
  tid_text v = do require (not (text_eq (strip (text_of v)) [])) missing_tid; ok (strip (text_of v))

  abbrev pub oid_of : Json → Result AccountStreamError (Option ℕ)
  oid_of v = if absent v then ok none else (do n ← positive_int v; ok (some n))

  -- `_parse_fill` of a row that is an object
  unfoldable pub parse_fill : Text → ℕ → ℕ → Bool → Fields → Result AccountStreamError FillRecord
  parse_fill account received_ms epoch is_snapshot row = do
    market ← market_of (get (codes "coin") row)
    tx_hash ← hash_text (get (codes "hash") row)
    tid ← tid_text (get (codes "tid") row)
    side ← side_of (lower (strip (text_or_empty (get (codes "side") row))))
    sz ← present missing_size_or_price (Wire.look_up (codes "sz") row)
    px ← present missing_size_or_price (Wire.look_up (codes "px") row)
    size_value ← parse_decimal sz
    price_value ← parse_decimal px
    size ← positive size_value
    price ← positive price_value
    start_position ← start_of (get (codes "startPosition") row)
    oid ← oid_of (get (codes "oid") row)
    time_ms ← positive_int (get (codes "time") row)
    ok (record {
      account = account;
      market = market;
      tx_hash = tx_hash;
      tid = tid;
      time_ms = time_ms;
      side = side;
      size = size;
      price = price;
      start_position = start_position;
      oid = oid;
      received_ms = received_ms;
      connection_epoch = epoch;
      is_snapshot = is_snapshot;
    })

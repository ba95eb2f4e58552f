-- ===== src/Account/Orders.antt =====
-- Rows of open orders (`parse_open_orders` of observer.py; `_order_identity`, `_parse_order_rows`,
-- `_assert_order_identity_available` and `_terminal_order_status` of account_stream.py).
use hyperliquid_copytrader.Base.{
  ℕ, Bool, true, false, not, ◌&&◌, ◌||◌, List, [], ◌∷◌, ◌++◌, Option, none, some, ◌==◌,
  if◌then◌else◌,
}
use hyperliquid_copytrader.Base.Int.{ℤ}
use hyperliquid_copytrader.Base.Text.{Text, codes, text_eq, strip, lower}
use hyperliquid_copytrader.Journal.Records.{
  Result, ok, err, ◌>>=◌, ◌>>◌, require, malformed, validate_cloid, JournalError,
}
use hyperliquid_copytrader.Wire.Json as Wire
use hyperliquid_copytrader.Wire.Json.{
  Json, null, bool, number, string, array, object, Items, nil, cons, Fields, end, field, get,
}
use hyperliquid_copytrader.Markets.Identity.{qualify_market_symbol}
use hyperliquid_copytrader.Account.Records.{
  AccountStreamError, Side, buy, sell, side_eq, OpenOrder, bad_row, bad_market, bad_side, bad_dex,
  missing_side, conflicting_sides, missing_size, missing_identity, bad_reduce_only, bad_cloid,
  duplicate_order,
}
use hyperliquid_copytrader.Account.Rows.{
  parse_decimal, positive, absent, present, text_or_empty, oid_of,
}
use hyperliquid_copytrader.Account.Stream.{member, in_stream}
use hyperliquid_copytrader.Account.States.{entry_price, coin_of}

-- `_normalize_order_side`, of a text in lower case
abbrev normalize_order_side : Text → Result AccountStreamError Side
normalize_order_side t =
    if member t
      (codes "b" ∷ codes "bid" ∷ codes "buy" ∷ codes "open long" ∷ codes "close short" ∷ [])
    then ok buy
    else if member t
        (codes "a" ∷ codes "ask" ∷ codes "sell" ∷ codes "open short" ∷ codes "close long" ∷ [])
    then ok sell
    else err bad_side

abbrev flagged_side : Option Json → Result AccountStreamError (List Side)
flagged_side none = ok []
flagged_side (some (bool b)) = ok ((if b then buy else sell) ∷ [])
flagged_side (some v) = err bad_side

abbrev all_are : Side → List Side → Bool
all_are a [] = true
all_are a (b ∷ bs) = side_eq a b && all_are a bs

abbrev one_side : List Side → Result AccountStreamError Side
one_side [] = err missing_side
one_side (a ∷ bs) = do require (all_are a bs) conflicting_sides; ok a

-- `sz`, or `origSz` where it is missing
abbrev size_value : Option Json → Option Json → Result AccountStreamError Json
size_value none original = present missing_size original
size_value (some v) original = ok v

-- `order.get("limitPx", order.get("px"))`, and the like
abbrev pub first_present : Option Json → Json → Json
first_present none v = v
first_present (some v) other = v

abbrev known_cloid : Result JournalError Text → Result AccountStreamError (Option Text)
known_cloid (err e) = err bad_cloid
known_cloid (ok cloid) = ok (some cloid)

abbrev cloid_of : Json → Result AccountStreamError (Option Text)
cloid_of v = if absent v then ok none else elim v [
  | string t n ↦ known_cloid (validate_cloid t)
  | null ↦ err bad_cloid
  | bool b ↦ err bad_cloid
  | number n ↦ err bad_cloid
  | array xs ↦ err bad_cloid
  | object fs ↦ err bad_cloid
]

abbrev no_name : Option ℕ → Option Text → Bool
no_name none none = true
no_name oid cloid = false

abbrev reduce_only_flag : Option Json → Result AccountStreamError Bool
reduce_only_flag none = ok false
reduce_only_flag (some (bool b)) = ok b
reduce_only_flag (some v) = err bad_reduce_only

abbrev same_oid : Option ℕ → Option ℕ → Bool
same_oid (some m) (some n) = m == n
same_oid a b = false

abbrev same_cloid : Option Text → Option Text → Bool
same_cloid (some s) (some t) = text_eq s t
same_cloid a b = false

-- An order has this oid or this cloid.
unfoldable pub answers_to : Option ℕ → Option Text → OpenOrder → Bool
answers_to oid cloid order = same_oid oid order.oid || same_cloid cloid order.cloid

abbrev pub shares_name : OpenOrder → OpenOrder → Bool
shares_name candidate prior = answers_to candidate.oid candidate.cloid prior

abbrev pub any_shares : OpenOrder → List OpenOrder → Bool
any_shares candidate [] = false
any_shares candidate (o ∷ os) = shares_name candidate o || any_shares candidate os

-- `_assert_order_identity_available`, with the order appended
unfoldable pub add_order : List OpenOrder → OpenOrder → Result AccountStreamError (List OpenOrder)
add_order orders candidate = do
  require (not (any_shares candidate orders)) duplicate_order
  ok (orders ++ (candidate ∷ []))

abbrev first_order : List OpenOrder → Result AccountStreamError OpenOrder
first_order [] = err bad_row
first_order (o ∷ os) = ok o

-- `fields[key] = value`
abbrev set_field : Text → Json → Fields → Fields
set_field key value end = field key value end
set_field key value (field k v fs) =
    let rest = set_field key value fs in if text_eq k key then field k value fs else field k v rest

-- A market as a JSON value; it is not read as a number.
abbrev market_value : Text → Json
market_value market = string market (record { decimal = malformed; integer = none })

abbrev dex_text : Json → Result AccountStreamError Text
dex_text null = ok []
dex_text (string t n) = ok t
dex_text v = err bad_dex

abbrev qualified_coin : Text → Json → Result AccountStreamError Text
qualified_coin dex (string t n) = in_stream (qualify_market_symbol dex t)
qualified_coin dex v = err bad_market

abbrev ends_with : Text → Text → Bool
ends_with ending [] = text_eq ending []
ends_with ending (c ∷ s) = text_eq ending (c ∷ s) || ends_with ending s

-- `_terminal_order_status`
unfoldable pub terminal_order_status : Text → Bool
terminal_order_status status =
    member status (
      codes "filled"
      ∷ codes "canceled"
      ∷ codes "cancelled"
      ∷ codes "triggered"
      ∷ codes "scheduledcancel"
      ∷ [])
    || ends_with (codes "canceled") status
    || ends_with (codes "cancelled") status
    || ends_with (codes "rejected") status

module _ (shown : Json → Text) (int_text : Text → Option ℤ) where
  abbrev side_signal : Json → Result AccountStreamError (List Side)
  side_signal v = if absent v then ok [] else (do
    side ← normalize_order_side (lower (strip (text_or_empty shown int_text v)))
    ok (side ∷ []))

  -- The side that all the signals of a row agree on.
  abbrev pub order_side : Fields → Result AccountStreamError Side
  order_side row = do
    side ← side_signal (get (codes "side") row)
    dir ← side_signal (get (codes "dir") row)
    flag ← flagged_side (Wire.look_up (codes "isBuy") row)
    one_side (side ++ (dir ++ flag))

  abbrev order_size : Fields → Result AccountStreamError ℕ
  order_size row = do
    raw ← size_value (Wire.look_up (codes "sz") row) (Wire.look_up (codes "origSz") row)
    size ← parse_decimal raw
    positive size

  -- One row of `parse_open_orders`.
  unfoldable pub parse_open_order : Text → ℕ → Fields → Result AccountStreamError OpenOrder
  parse_open_order dex updated_ms row = do
    coin ← coin_of dex (get (codes "coin") row)
    side ← order_side row
    size ← order_size row
    price ← entry_price (first_present (Wire.look_up (codes "limitPx") row) (get (codes "px") row))
    oid ← oid_of shown int_text (get (codes "oid") row)
    cloid ← cloid_of (get (codes "cloid") row)
    require (not (no_name oid cloid)) missing_identity
    reduce_only ← reduce_only_flag (Wire.look_up (codes "reduceOnly") row)
    ok (record {
      coin = coin;
      side = side;
      size = size;
      price = price;
      oid = oid;
      cloid = cloid;
      reduce_only = reduce_only;
      updated_ms = updated_ms;
    })

  abbrev parse_open_value : Text → ℕ → Json → Result AccountStreamError OpenOrder
  parse_open_value dex updated_ms (object row) = parse_open_order dex updated_ms row
  parse_open_value dex updated_ms _ = err bad_row

  abbrev parse_open_after :
      Text → ℕ → List OpenOrder → Items → Result AccountStreamError (List OpenOrder)
  parse_open_after dex updated_ms orders nil = ok orders
  parse_open_after dex updated_ms orders (cons row rows) = do
    order ← parse_open_value dex updated_ms row
    next ← add_order orders order
    parse_open_after dex updated_ms next rows

  -- `parse_open_orders` of a list; the oids and cloids seen are those of the orders so far.
  unfoldable pub parse_open_orders : Text → ℕ → Items → Result AccountStreamError (List OpenOrder)
  parse_open_orders dex updated_ms rows = parse_open_after dex updated_ms [] rows

  abbrev parse_order_row : Fields → ℕ → Fields → Result AccountStreamError OpenOrder
  parse_order_row outer observed_ms row = do
    dex ← dex_text (
        first_present (Wire.look_up (codes "dex") row)
          (first_present (Wire.look_up (codes "dex") outer) null))
    coin ← qualified_coin dex (get (codes "coin") row)
    parsed ←
        parse_open_orders [] observed_ms
          (cons (object (set_field (codes "coin") (market_value coin) row)) nil)
    first_order parsed

  abbrev pub parse_order_value : Fields → ℕ → Json → Result AccountStreamError OpenOrder
  parse_order_value outer observed_ms (object row) = parse_order_row outer observed_ms row
  parse_order_value outer observed_ms _ = err bad_row

  abbrev pub parse_rows_after :
      Fields → ℕ → List OpenOrder → Items → Result AccountStreamError (List OpenOrder)
  parse_rows_after outer observed_ms orders nil = ok orders
  parse_rows_after outer observed_ms orders (cons row rows) = do
    parsed ← parse_order_value outer observed_ms row
    next ← add_order orders parsed
    parse_rows_after outer observed_ms next rows

  -- `_parse_order_rows`
  unfoldable pub parse_order_rows : Fields → ℕ → Items → Result AccountStreamError (List OpenOrder)
  parse_order_rows outer observed_ms rows = parse_rows_after outer observed_ms [] rows

  -- `_parse_order_rows` of one row
  unfoldable pub parse_one_order : Fields → ℕ → Fields → Result AccountStreamError OpenOrder
  parse_one_order outer observed_ms row = do
    orders ← parse_order_rows outer observed_ms (cons (object row) nil)
    first_order orders

  abbrev stripped_cloid : Json → Result AccountStreamError (Option Text)
  stripped_cloid (string t n) =
      if absent (string t n) then ok none else known_cloid (validate_cloid (strip t))
  stripped_cloid null = ok none
  stripped_cloid v = err bad_cloid

  -- `_order_identity`
  unfoldable pub order_identity : Fields → Result AccountStreamError (Option ℕ × Option Text)
  order_identity order = do
    oid ← oid_of shown int_text (get (codes "oid") order)
    cloid ← stripped_cloid (get (codes "cloid") order)
    require (not (no_name oid cloid)) missing_identity
    ok (oid, cloid)

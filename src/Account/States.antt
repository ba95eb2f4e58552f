-- ===== src/Account/States.antt =====
-- The clearinghouse states of a frame of all DEXes (`parse_all_dexs_message` and `_clearinghouse_states` of
-- unified_account.py; `parse_clearinghouse_positions` and `_parse_position_leverage` of observer.py).
--
-- The parameter `one` is the number of quanta in 1. The exceptions are those of the account stream, which
-- turns every one of them into its own.
use hyperliquid_copytrader.Base.{
  ℕ, ◌/◌, ◌%◌, Bool, true, false, not, ◌&&◌, List, [], ◌∷◌, ◌++◌, Option, none, some, ltb, ◌==◌,
  if◌then◌else◌,
}
use hyperliquid_copytrader.Base.Int.{ℤ, pos, negsuc}
use hyperliquid_copytrader.Base.Text.{Text, codes, text_eq, strip, lower}
use hyperliquid_copytrader.Journal.Records.{Result, ok, err, ◌>>=◌, ◌>>◌, require}
use hyperliquid_copytrader.Wire.Json as Wire
use hyperliquid_copytrader.Wire.Json.{
  Json, null, bool, number, string, array, object, Items, nil, cons, Fields, end, field, get,
}
use hyperliquid_copytrader.Markets.Identity.{qualify_market_symbol}
use hyperliquid_copytrader.Account.Records.{
  AccountStreamError, look_up, bad_data, bad_account, bad_rows, bad_row, bad_number, bad_market,
  missing_dex, duplicate_position,
}
use hyperliquid_copytrader.Account.Rows.{
  parse_decimal, positive, absent, text_of, text_or_empty, present,
}
use hyperliquid_copytrader.Account.Chain.{Positions}
use hyperliquid_copytrader.Account.Stream.{in_stream, dex_of}
use hyperliquid_copytrader.Account.Fills.{fields_of, items_of}

abbrev pub States : Type 0
States = List (Text × Fields)

abbrev pub contains_key {ℓ} : {A : Type ℓ} → Text → List (Text × A) → Bool
contains_key key entries = elim (look_up key entries) [ none ↦ false | some v ↦ true ]

abbrev key_of : Json → Option Text
key_of (string t n) = some t
key_of _ = none

abbrev pair_of : Json → Result AccountStreamError (Option Text × Json)
pair_of (array (cons dex (cons state nil))) = ok (key_of dex, state)
pair_of _ = err bad_data

abbrev pairs_of : Items → Result AccountStreamError (List (Option Text × Json))
pairs_of nil = ok []
pairs_of (cons x xs) = do p ← pair_of x; rest ← pairs_of xs; ok (p ∷ rest)

abbrev fields_as_pairs : Fields → List (Option Text × Json)
fields_as_pairs end = []
fields_as_pairs (field k v fs) = (some k, v) ∷ fields_as_pairs fs

abbrev entries_of : Json → Result AccountStreamError (List (Option Text × Json))
entries_of (object fs) = ok (fields_as_pairs fs)
entries_of (array xs) = pairs_of xs
entries_of _ = err bad_data

abbrev dex_name : Text → Result AccountStreamError Text
dex_name [] = ok []
dex_name (c ∷ t) = do market ← in_stream (qualify_market_symbol (c ∷ t) (codes "X")); dex_of market

abbrev dex_key : Option Text → Result AccountStreamError Text
dex_key none = err bad_data
dex_key (some raw) = dex_name raw

abbrev add_states : States → List (Option Text × Json) → Result AccountStreamError States
add_states states [] = ok states
add_states states ((raw, value) ∷ rest) = do
  state ← fields_of bad_data value
  dex ← dex_key raw
  require (not (contains_key dex states)) bad_data
  add_states (states ++ ((dex, state) ∷ [])) rest

-- `_clearinghouse_states`; that it is not empty follows from the default DEX, which is asked for next.
unfoldable pub clearinghouse_states : Json → Result AccountStreamError States
clearinghouse_states value = do entries ← entries_of value; add_states [] entries

-- `_parse_position_leverage`
abbrev leverage_value : Json → Json
leverage_value (object fs) = get (codes "value") fs
leverage_value v = v

abbrev whole : ℕ → ℤ → Result AccountStreamError (Option ℕ)
whole one (pos n) = do require (ltb 0 n && n % one == 0) bad_number; ok (some (n / one))
whole one (negsuc n) = err bad_number

abbrev leverage_number : ℕ → Json → Result AccountStreamError (Option ℕ)
leverage_number one (bool b) = err bad_number
leverage_number one v = if absent v then ok none else (do d ← parse_decimal v; whole one d)

abbrev pub entry_price : Json → Result AccountStreamError (Option ℕ)
entry_price v = if absent v then ok none else (do d ← parse_decimal v; n ← positive d; ok (some n))

abbrev position_value : Fields → Option Json → Json
position_value item none = object item
position_value item (some v) = v

abbrev pub coin_of : Text → Json → Result AccountStreamError Text
coin_of dex (string t n) = do
  require (not (text_eq (strip t) [])) bad_market
  in_stream (qualify_market_symbol dex t)
coin_of dex _ = err bad_market

abbrev is_zero : ℤ → Bool
is_zero (pos n) = n == 0
is_zero (negsuc n) = false

-- A coin's position, or none where the size is 0.
abbrev position_of : Text → ℤ → Option ℕ → ℕ → Json → Result AccountStreamError Positions
position_of coin size leverage observed_ms raw_entry = if is_zero size then ok [] else (do
  entry_px ← entry_price raw_entry
  ok (
      (
        coin,
        record {
          coin = coin;
          size = size;
          entry_px = entry_px;
          leverage = leverage;
          updated_ms = observed_ms;
        },
      )
      ∷ []))

abbrev read_position :
    ℕ → Text → ℕ → List (Text × Unit {0}) → Json → Result AccountStreamError (Text × Positions)
read_position one dex observed_ms seen item = do
  fs ← fields_of bad_row item
  p ← fields_of bad_row (position_value fs (Wire.look_up (codes "position") fs))
  coin ← coin_of dex (get (codes "coin") p)
  require (not (contains_key coin seen)) duplicate_position
  szi ← present bad_row (Wire.look_up (codes "szi") p)
  size ← parse_decimal szi
  leverage ← leverage_number one (leverage_value (get (codes "leverage") p))
  here ← position_of coin size leverage observed_ms (get (codes "entryPx") p)
  ok (coin, here)

abbrev read_positions :
    ℕ → Text → ℕ → List (Text × Unit {0}) → Items → Result AccountStreamError Positions
read_positions one dex observed_ms seen nil = ok []
read_positions one dex observed_ms seen (cons item items) = do
  here ← read_position one dex observed_ms seen item
  rest ← read_positions one dex observed_ms ((here.0, tt) ∷ seen) items
  ok (here.1 ++ rest)

-- `parse_clearinghouse_positions`
unfoldable pub parse_clearinghouse_positions :
    ℕ → Fields → ℕ → Text → Result AccountStreamError Positions
parse_clearinghouse_positions one state observed_ms dex = do
  raw ← present bad_rows (Wire.look_up (codes "assetPositions") state)
  items ← items_of bad_rows raw
  read_positions one dex observed_ms [] items

module _ (shown : Json → Text) (int_text : Text → Option ℤ) where
  abbrev positive_time : Option ℤ → Result AccountStreamError (Unit {0})
  positive_time (some (pos n)) = require (ltb 0 n) bad_number
  positive_time _ = err bad_number

  abbrev check_states : States → Result AccountStreamError (Unit {0})
  check_states [] = ok tt
  check_states ((dex, state) ∷ rest) = do
    items_of bad_rows (get (codes "assetPositions") state) >>= λ items. ok tt
    positive_time (int_text (text_of shown int_text (get (codes "time") state)))
    check_states rest

  -- `parse_all_dexs_message`, of the frame's data
  unfoldable pub parse_all_dexs : Text → Fields → Result AccountStreamError States
  parse_all_dexs expected_account fs = do
    require
        (text_eq (lower (strip (text_or_empty shown int_text (get (codes "user") fs))))
          expected_account)
        bad_account
    states ← clearinghouse_states (get (codes "clearinghouseStates") fs)
    require (contains_key [] states) missing_dex
    check_states states
    ok states

-- ===== src/Account/Fills.antt =====
-- `_apply_fills` and `_apply_twap_fills` of `AccountStream` (account_stream.py).
--
-- A frame that raises leaves the stream as it was: every check stands before the first assignment
-- (`market_dex`, which is called after it, is called on the market of a record, a canonical name).
use hyperliquid_copytrader.Base.{
  ℕ, suc, ◌+◌, ◌-◌, Bool, true, false, not, ◌&&◌, ◌||◌, List, [], ◌∷◌, ◌++◌, Option, none, some,
  leb, ◌==◌, if◌then◌else◌, length, max,
}
use hyperliquid_copytrader.Base.Int.{ℤ}
use hyperliquid_copytrader.Base.Text.{Text, codes, text_eq, strip}
use hyperliquid_copytrader.Journal.Records.{Result, ok, err, ◌>>=◌, ◌>>◌, require}
use hyperliquid_copytrader.Wire.Json.{
  Json, null, bool, string, array, object, Items, nil, cons, Fields, end, field, get, truthy,
}
use hyperliquid_copytrader.Account.Records.{
  AccountStreamError, FillRecord, Component, positions, twap_fills, Times, time_of, set_time,
  look_up, put, bad_data, unconfigured_account, snapshot_undeclared, live_before_snapshot, bad_rows,
  bad_row,
}
use hyperliquid_copytrader.Account.Memory.{unique_records, new_records, remember}
use hyperliquid_copytrader.Account.Chain.{Positions, validated_fill_positions}
use hyperliquid_copytrader.Account.Rows.{account_of, market_of, parse_fill, text_of, text_or_empty}
use hyperliquid_copytrader.Account.Stream.{
  Stream, MutableAccount, Role, of_source, of_follower, Scope, member, dex_of, is_known,
}

-- `AccountStreamUpdate` of a fill channel, without the channel and `baseline_ready`
pub record FillsUpdate : Type 0 where
  pub account : Text
  pub role : Role
  pub connection_epoch : ℕ
  pub initial_snapshot : Bool
  pub new_fills : List FillRecord
  pub duplicate_fills : ℕ

abbrev pub account_for : Role → Stream → MutableAccount
account_for of_source s = s.source
account_for of_follower s = s.follower

abbrev pub set_account : Role → MutableAccount → Stream → Stream
set_account of_source a s = record s { source = a }
set_account of_follower a s = record s { follower = a }

abbrev pub scope_for : Role → Stream → Scope
scope_for of_source s = s.source_markets
scope_for of_follower s = s.follower_markets

abbrev pub fields_of : AccountStreamError → Json → Result AccountStreamError Fields
fields_of error (object fs) = ok fs
fields_of error _ = err error

abbrev pub items_of : AccountStreamError → Json → Result AccountStreamError Items
items_of error (array xs) = ok xs
items_of error _ = err error

-- `isSnapshot`, which may be left out once the channel has its baseline
abbrev pub snapshot_flag : Json → Bool → Result AccountStreamError Bool
snapshot_flag (bool b) has_baseline = ok b
snapshot_flag null true = ok false
snapshot_flag v has_baseline = err snapshot_undeclared

abbrev starts_at : Text → Bool
starts_at [] = false
starts_at (c ∷ t) = c == b'@'

-- A Spot pair, `@` and its index.
abbrev pub is_spot_pair : Json → Bool
is_spot_pair (string t n) = starts_at (strip t)
is_spot_pair _ = false

abbrev accepts_outside : Role → Stream → Bool
accepts_outside of_source s = s.accept_source_markets_outside_scope
accepts_outside of_follower s = false

abbrev in_markets : Text → Scope → Bool
in_markets market none = true
in_markets market (some markets) = member market markets

abbrev pub in_scope : Role → Stream → Text → Bool
in_scope role s market = in_markets market (scope_for role s) || accepts_outside role s

abbrev pub latest : ℕ → List FillRecord → ℕ
latest t [] = t
latest t (r ∷ rs) = latest (max t r.time_ms) rs

abbrev pub or_else : Option ℕ → ℕ → ℕ
or_else none d = d
or_else (some t) d = t

-- `max((record.time_ms for record in records), default=received_ms)`
abbrev latest_or : ℕ → List FillRecord → ℕ
latest_or received_ms [] = received_ms
latest_or received_ms (r ∷ rs) = latest r.time_ms rs

abbrev pub observe_dexes :
    List FillRecord → List (Text × ℕ) → Result AccountStreamError (List (Text × ℕ))
observe_dexes [] seen = ok seen
observe_dexes (r ∷ rs) seen = do
  dex ← dex_of r.market
  observe_dexes rs (put dex (max (or_else (look_up dex seen) 0) r.time_ms) seen)

-- The last `capacity` fills.
abbrev pub last_fills : ℕ → List FillRecord → List FillRecord
last_fills capacity [] = []
last_fills capacity (r ∷ rs) =
    if leb (suc (length rs)) capacity then r ∷ rs else last_fills capacity rs

abbrev pub any_fill_baseline : Times → Bool
any_fill_baseline t = is_known t.fills || is_known t.twap_fills

-- `state.fills` after a frame
abbrev pub kept_fills :
    ℕ → Bool → MutableAccount → List FillRecord → List FillRecord → List FillRecord
kept_fills capacity is_snapshot a unique new =
    if is_snapshot && not (any_fill_baseline a.component_received_ms)
    then last_fills capacity unique
    else last_fills capacity (a.fills ++ new)

-- The positions that a frame leaves: a snapshot leaves them alone.
abbrev pub next_positions : Bool → Positions → List FillRecord → Result AccountStreamError Positions
next_positions true ps new = ok ps
next_positions false ps new = validated_fill_positions ps new

-- The positions, their times and the observation times of their DEXes.
abbrev pub with_positions :
    Bool
    → ℕ
    → Positions
    → List FillRecord
    → MutableAccount
    → Result AccountStreamError MutableAccount
with_positions true received_ms ps new a = ok a
with_positions false received_ms ps [] a = ok (record a { positions = ps })
with_positions false received_ms ps (r ∷ rs) a = do
  seen ← observe_dexes (r ∷ rs) a.position_observed_ms_by_dex
  ok (record a {
    positions = ps;
    component_received_ms = set_time positions (some received_ms) a.component_received_ms;
    component_observed_ms =
        set_time positions
          (some (latest (or_else (time_of positions a.component_observed_ms) 0) (r ∷ rs)))
          a.component_observed_ms;
    position_observed_ms_by_dex = seen;
  })

abbrev pub with_fills :
    ℕ
    → Component
    → ℕ
    → Bool
    → List FillRecord
    → List FillRecord
    → List FillRecord
    → MutableAccount
    → MutableAccount
with_fills capacity component received_ms is_snapshot records unique new a = record a {
  fills = kept_fills capacity is_snapshot a unique new;
  component_received_ms = set_time component (some received_ms) a.component_received_ms;
  component_observed_ms =
      set_time component (some (latest_or received_ms records)) a.component_observed_ms;
}

abbrev pub reported : Bool → List FillRecord → List FillRecord
reported true new = []
reported false new = new

-- The second half of `_apply_fills`, from the parsed records on.
unfoldable pub reduce_fills :
    Component
    → ℕ
    → Text
    → Role
    → Bool
    → List FillRecord
    → Stream
    → Result AccountStreamError (Stream × FillsUpdate)
reduce_fills component received_ms account role is_snapshot records s = do
  let state = account_for role s
  unique ← unique_records [] records
  new ← new_records s.fill_fingerprints unique
  next ← next_positions is_snapshot state.positions new
  moved ← with_positions is_snapshot received_ms next new state
  let filled =
      with_fills s.fill_dedupe_capacity component received_ms is_snapshot records unique new moved
  let remembered = remember s.fill_dedupe_capacity new unique s.fill_fingerprints
  ok (
    set_account role filled (record s { fill_fingerprints = remembered }),
    record {
      account = account;
      role = role;
      connection_epoch = s.connection_epoch;
      initial_snapshot = is_snapshot;
      new_fills = reported is_snapshot new;
      duplicate_fills = length records - length unique + (length unique - length new);
    },
  )

-- What a fill frame is read as: its account, its role, whether it is a snapshot, and its records.
pub record FillsFrame : Type 0 where
  pub account : Text
  pub role : Role
  pub is_snapshot : Bool
  pub records : List FillRecord

abbrev role_of : Text → Stream → Result AccountStreamError (Text × Role)
role_of account s =
    if text_eq account s.source_address
    then ok (account, of_source)
    else if text_eq account s.follower_address
    then ok (account, of_follower)
    else err unconfigured_account

module _ (shown : Json → Text) (int_text : Text → Option ℤ) where
  -- `str(data.get("user") or data.get("userAddress") or "")`
  abbrev pub user_text : Fields → Text
  user_text fs =
      if truthy (get (codes "user") fs)
      then text_of shown int_text (get (codes "user") fs)
      else text_or_empty shown int_text (get (codes "userAddress") fs)

  -- `_role_for_data`
  unfoldable pub role_for_data : Fields → Stream → Result AccountStreamError (Text × Role)
  role_for_data fs s = do account ← account_of (user_text fs); role_of account s

  abbrev parse_row :
      Text → Role → ℕ → Bool → Stream → Fields → Result AccountStreamError (List FillRecord)
  parse_row account role received_ms is_snapshot s row = do
    market ← market_of (get (codes "coin") row)
    if not (in_scope role s market) then ok [] else (do
      r ← parse_fill shown int_text account received_ms s.connection_epoch is_snapshot row
      ok (r ∷ []))

  abbrev read_row :
      Text → Role → ℕ → Bool → Stream → Json → Result AccountStreamError (List FillRecord)
  read_row account role received_ms is_snapshot s (object row) =
      if is_spot_pair (get (codes "coin") row)
      then ok []
      else parse_row account role received_ms is_snapshot s row
  read_row account role received_ms is_snapshot s _ = err bad_row

  -- The records of the rows whose market is followed.
  abbrev read_rows :
      Text → Role → ℕ → Bool → Stream → Items → Result AccountStreamError (List FillRecord)
  read_rows account role received_ms is_snapshot s nil = ok []
  read_rows account role received_ms is_snapshot s (cons row rows) = do
    here ← read_row account role received_ms is_snapshot s row
    rest ← read_rows account role received_ms is_snapshot s rows
    ok (here ++ rest)

  -- The first half of `_apply_fills`.
  unfoldable pub read_fills : Component → ℕ → Json → Stream → Result AccountStreamError FillsFrame
  read_fills component received_ms payload s = do
    fs ← fields_of bad_data payload
    who ← role_for_data fs s
    let state = account_for who.1 s
    let has_baseline = is_known (time_of component state.component_received_ms)
    is_snapshot ← snapshot_flag (get (codes "isSnapshot") fs) has_baseline
    require (is_snapshot || has_baseline) live_before_snapshot
    rows ← items_of bad_rows (get (codes "fills") fs)
    records ← read_rows who.0 who.1 received_ms is_snapshot s rows
    ok (record { account = who.0; role = who.1; is_snapshot = is_snapshot; records = records })

  -- `_apply_fills`
  unfoldable pub apply_fills :
      Component → ℕ → Json → Stream → Result AccountStreamError (Stream × FillsUpdate)
  apply_fills component received_ms payload s = do
    frame ← read_fills component received_ms payload s
    reduce_fills component received_ms frame.account frame.role frame.is_snapshot frame.records s

-- The `fill` objects of the wrappers of `userTwapSliceFills`.
abbrev wrapped_fill : Json → Result AccountStreamError Json
wrapped_fill (object wrapper) = do
  fill ← fields_of bad_row (get (codes "fill") wrapper)
  ok (object fill)
wrapped_fill _ = err bad_row

abbrev pub wrapped_fills : Items → Result AccountStreamError Items
wrapped_fills nil = ok nil
wrapped_fills (cons w ws) = do fill ← wrapped_fill w; rest ← wrapped_fills ws; ok (cons fill rest)

abbrev pub normalized : Fields → Items → Json
normalized fs rows = object (
    field (codes "user") (get (codes "user") fs) (
      field (codes "isSnapshot") (get (codes "isSnapshot") fs)
        (field (codes "fills") (array rows) end)))

-- `_apply_twap_fills`
unfoldable pub apply_twap_fills :
    (Json → Text)
    → (Text → Option ℤ)
    → ℕ
    → Json
    → Stream
    → Result AccountStreamError (Stream × FillsUpdate)
apply_twap_fills shown int_text received_ms payload s = do
  fs ← fields_of bad_data payload
  rows ← items_of bad_rows (get (codes "twapSliceFills") fs)
  fill_rows ← wrapped_fills rows
  apply_fills shown int_text twap_fills received_ms (normalized fs fill_rows) s

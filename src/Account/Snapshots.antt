-- ===== src/Account/Snapshots.antt =====
-- `_apply_positions` of `AccountStream` (account_stream.py): the positions of all DEXes.
use hyperliquid_copytrader.Base.{
  ℕ, Bool, true, false, not, ◌&&◌, List, [], ◌∷◌, ◌++◌, Option, none, some, ltb, leb, ◌==◌,
  if◌then◌else◌, max,
}
use hyperliquid_copytrader.Base.Int.{ℤ, pos, ltb_ℤ, ◌+ℤ◌}
use hyperliquid_copytrader.Base.Text.{Text, codes, text_eq, text_lt}
use hyperliquid_copytrader.Journal.Records.{Result, ok, err, ◌>>=◌, ◌>>◌, require}
use hyperliquid_copytrader.Wire.Json.{Json, null, object, Fields, get}
use hyperliquid_copytrader.Markets.Identity.{market_dex, MarketIdentityError}
use hyperliquid_copytrader.Account.Records.{
  AccountStreamError, positions, perp_equity, time_of, set_time, look_up, put, int_eq, bad_data,
  duplicate_position, positions_backwards, positions_contradict, missing_dex, missing_equity,
  negative_equity, nonflat_without_equity, no_equity,
}
use hyperliquid_copytrader.Account.Rows.{parse_decimal, positive_int}
use hyperliquid_copytrader.Account.Chain.{Positions}
use hyperliquid_copytrader.Account.Stream.{
  Stream, MutableAccount, is_standard, Role, of_source, of_follower, is_known,
}
use hyperliquid_copytrader.Account.Fills.{
  fields_of, role_for_data, account_for, set_account, or_else,
}
use hyperliquid_copytrader.Account.Spot.{ChannelUpdate}
use hyperliquid_copytrader.Account.States.{
  States, contains_key, parse_all_dexs, parse_clearinghouse_positions,
}

-- What one DEX's state is read as.
pub record DexPositions : Type 0 where
  pub dex : Text
  pub state : Fields
  pub observed_ms : ℕ
  pub found : Positions

-- The default DEX first, then by name.
abbrev dex_before : Text → Text → Bool
dex_before [] b = true
dex_before (c ∷ a) [] = false
dex_before (c ∷ a) (d ∷ b) = not (text_lt (d ∷ b) (c ∷ a))

abbrev insert_dex : Text × Fields → States → States
insert_dex e [] = e ∷ []
insert_dex e (s ∷ ss) = if dex_before e.0 s.0 then e ∷ s ∷ ss else s ∷ insert_dex e ss

-- `sorted(states, key=...)`
abbrev pub sort_dexes : States → States
sort_dexes [] = []
sort_dexes (s ∷ ss) = insert_dex s (sort_dexes ss)

-- The positions of one more DEX; two DEXes may not name one market.
abbrev join : Positions → Positions → Result AccountStreamError Positions
join known [] = ok known
join known ((market, p) ∷ rest) = do
  require (not (contains_key market known)) duplicate_position
  join (known ++ ((market, p) ∷ [])) rest

abbrev belongs : Text → Result MarketIdentityError Text → Bool
belongs dex (ok d) = text_eq d dex
belongs dex (err e) = false

-- The nonzero sizes of some positions.
abbrev sizes_of : Positions → List (Text × ℤ)
sizes_of [] = []
sizes_of ((market, p) ∷ rest) =
    let others = sizes_of rest in
    if int_eq p.size (pos 0) then others else (market, p.size) ∷ others

abbrev of_dex : Text → Positions → Positions
of_dex dex [] = []
of_dex dex ((market, p) ∷ rest) =
    let others = of_dex dex rest in
    if belongs dex (market_dex market) then (market, p) ∷ others else others

abbrev has_size : Option ℤ → ℤ → Bool
has_size none size = false
has_size (some other) size = int_eq other size

abbrev sizes_within : List (Text × ℤ) → List (Text × ℤ) → Bool
sizes_within [] others = true
sizes_within ((market, size) ∷ rest) others =
    has_size (look_up market others) size && sizes_within rest others

abbrev same_sizes : List (Text × ℤ) → List (Text × ℤ) → Bool
same_sizes a b = sizes_within a b && sizes_within b a

-- A DEX's snapshot may not be older than what is known, and one of the same time must agree with it.
abbrev pub check_dex : MutableAccount → DexPositions → Result AccountStreamError (Unit {0})
check_dex a d = do
  let prior = or_else (look_up d.dex a.position_observed_ms_by_dex) 0
  require (leb prior d.observed_ms) positions_backwards
  require
      (not (
        ltb 0 prior
        && d.observed_ms == prior
        && not (same_sizes (sizes_of d.found) (sizes_of (of_dex d.dex a.positions)))))
      positions_contradict

abbrev pub check_dexes : MutableAccount → List DexPositions → Result AccountStreamError (Unit {0})
check_dexes a [] = ok tt
check_dexes a (d ∷ ds) = do check_dex a d; check_dexes a ds

abbrev find_dex : Text → List DexPositions → Option DexPositions
find_dex dex [] = none
find_dex dex (d ∷ ds) = if text_eq d.dex dex then some d else find_dex dex ds

abbrev account_value : Json → Result AccountStreamError ℤ
account_value (object summary) = elim (get (codes "accountValue") summary) [
  | null ↦ err missing_equity
  | v ↦ parse_decimal v
]
account_value _ = err missing_equity

abbrev any_size : List (Text × ℤ) → Bool
any_size [] = false
any_size (s ∷ ss) = true

abbrev dex_equity : Positions → Text → Option DexPositions → Result AccountStreamError ℤ
dex_equity ps dex none = err missing_dex
dex_equity ps dex (some d) = do
  equity ← account_value (get (codes "marginSummary") d.state)
  require (not (ltb_ℤ equity (pos 0))) negative_equity
  require (not (any_size (sizes_of (of_dex dex ps)) && not (ltb_ℤ (pos 0) equity)))
      nonflat_without_equity
  ok equity

-- The equity of each relevant DEX of a standard account.
abbrev equities :
    Positions
    → List DexPositions
    → List Text
    → List (Text × ℤ)
    → Result AccountStreamError (List (Text × ℤ))
equities ps ds [] known = ok known
equities ps ds (dex ∷ dexes) known = do
  equity ← dex_equity ps dex (find_dex dex ds)
  equities ps ds dexes (put dex equity known)

abbrev total_equity : List (Text × ℤ) → ℤ
total_equity [] = pos 0
total_equity ((dex, e) ∷ rest) = e +ℤ total_equity rest

abbrev pub perp_equities :
    Bool → Positions → List DexPositions → List Text → Result AccountStreamError (List (Text × ℤ))
perp_equities false ps ds dexes = ok []
perp_equities true ps ds dexes = do
  found ← equities ps ds dexes []
  require (ltb_ℤ (pos 0) (total_equity found)) no_equity
  ok found

abbrev pub is_source : Role → Bool
is_source of_source = true
is_source of_follower = false

abbrev latest_observed : ℕ → List DexPositions → ℕ
latest_observed t [] = t
latest_observed t (d ∷ ds) = latest_observed (max t d.observed_ms) ds

abbrev observed_of : List DexPositions → Text → ℕ → ℕ
observed_of ds dex d = elim (find_dex dex ds) [ none ↦ d | some p ↦ p.observed_ms ]

abbrev earliest : List DexPositions → List Text → ℕ → ℕ
earliest ds [] t = t
earliest ds (dex ∷ dexes) t =
    earliest ds dexes (if ltb (observed_of ds dex t) t then observed_of ds dex t else t)

abbrev earliest_of : List DexPositions → List Text → ℕ
earliest_of ds [] = 0
earliest_of ds (dex ∷ dexes) = earliest ds dexes (observed_of ds dex 0)

abbrev pub with_equity :
    Bool → ℕ → List DexPositions → List Text → List (Text × ℤ) → MutableAccount → MutableAccount
with_equity false received_ms ds dexes found a = a
with_equity true received_ms ds dexes found a = record a {
  perp_equity_by_dex = found;
  component_received_ms = set_time perp_equity (some received_ms) a.component_received_ms;
  component_observed_ms =
      set_time perp_equity (some (earliest_of ds dexes)) a.component_observed_ms;
}

abbrev pub observe_all : List DexPositions → List (Text × ℕ) → List (Text × ℕ)
observe_all [] seen = seen
observe_all (d ∷ ds) seen = observe_all ds (put d.dex d.observed_ms seen)

abbrev pub with_snapshot : ℕ → Positions → List DexPositions → MutableAccount → MutableAccount
with_snapshot received_ms ps ds a = record a {
  positions = ps;
  component_received_ms = set_time positions (some received_ms) a.component_received_ms;
  component_observed_ms = set_time positions (some (latest_observed 0 ds)) a.component_observed_ms;
  position_observed_ms_by_dex = observe_all ds a.position_observed_ms_by_dex;
}

-- The account after a snapshot of the DEXes `ds`.
unfoldable pub replace_positions :
    Bool
    → ℕ
    → List Text
    → Positions
    → List DexPositions
    → MutableAccount
    → Result AccountStreamError MutableAccount
replace_positions standard received_ms dexes ps ds a = do
  check_dexes a ds
  found ← perp_equities standard ps ds dexes
  ok (with_snapshot received_ms ps ds (with_equity standard received_ms ds dexes found a))

module _ (one : ℕ) (shown : Json → Text) (int_text : Text → Option ℤ) where
  -- The DEXes in their order, and the positions of all of them.
  abbrev pub read_states :
      Positions → States → Result AccountStreamError (Positions × List DexPositions)
  read_states known [] = ok (known, [])
  read_states known ((dex, state) ∷ rest) = do
    observed_ms ← positive_int shown int_text (get (codes "time") state)
    found ← parse_clearinghouse_positions one state observed_ms dex
    next ← join known found
    others ← read_states next rest
    ok (
      others.0,
      record { dex = dex; state = state; observed_ms = observed_ms; found = found } ∷ others.1,
    )

  -- `_apply_positions`
  unfoldable pub apply_positions :
      ℕ → Json → Stream → Result AccountStreamError (Stream × ChannelUpdate)
  apply_positions received_ms data_value s = do
    fs ← fields_of bad_data data_value
    who ← role_for_data shown int_text fs s
    states ← parse_all_dexs shown int_text who.0 fs
    read ← read_states [] (sort_dexes states)
    let state = account_for who.1 s
    let standard = is_source who.1 && is_standard s.source_account_mode
    a ← replace_positions standard received_ms s.source_dexes read.0 read.1 state
    ok (
      set_account who.1 a s,
      record {
        account = who.0;
        role = who.1;
        connection_epoch = s.connection_epoch;
        initial_snapshot = not (is_known (time_of positions state.component_received_ms));
      },
    )

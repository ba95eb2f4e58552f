-- ===== src/Account/Stream.antt =====
-- `AccountStream` and its accounts (account_stream.py): construction, scope, connections and freshness.
--
-- A set of markets or DEX names is a list without order or repetition that matters; `None` for a
-- scope admits every market.
use hyperliquid_copytrader.Base.{
  ℕ, suc, ◌-◌, Bool, true, false, not, ◌&&◌, ◌||◌, List, [], ◌∷◌, Option, none, some, ltb, leb,
  ◌==◌, if◌then◌else◌, max,
}
use hyperliquid_copytrader.Base.Int.{ℤ, pos, negsuc}
use hyperliquid_copytrader.Base.Text.{Text, codes, text_eq, strip, lower}
use hyperliquid_copytrader.Journal.Records.{Result, ok, err, ◌>>=◌, ◌>>◌, require}
use hyperliquid_copytrader.Markets.Identity.{canonical_market, market_dex, MarketIdentityError}
use hyperliquid_copytrader.Account.Records.{
  AccountStreamError, UsdcCollateral, OpenOrder, FillRecord, Component, positions, collateral,
  perp_equity, open_orders, fills, twap_fills, Times, no_times, time_of, set_time, bad_market,
  bad_mode, same_account, bad_capacity, no_markets, not_connected, stale_epoch, bad_receive_time,
  negative_connection_time, bad_age,
}
use hyperliquid_copytrader.Account.Memory.{Entry}
use hyperliquid_copytrader.Account.Chain.{Positions}
use hyperliquid_copytrader.Account.Rows.{account_of}

-- `_MutableAccount`
pub record MutableAccount : Type 0 where
  pub positions : Positions
  pub collateral : Option UsdcCollateral
  pub perp_equity_by_dex : List (Text × ℤ)
  pub open_orders : List OpenOrder
  pub fills : List FillRecord
  pub component_received_ms : Times
  pub component_observed_ms : Times
  pub position_observed_ms_by_dex : List (Text × ℕ)

-- `_MutableAccount.empty`
abbrev pub empty_account : MutableAccount
empty_account = record {
  positions = [];
  collateral = none;
  perp_equity_by_dex = [];
  open_orders = [];
  fills = [];
  component_received_ms = no_times;
  component_observed_ms = no_times;
  position_observed_ms_by_dex = [];
}

pub data AccountMode : Type 0 where
  standard unified : AccountMode

abbrev pub is_standard : AccountMode → Bool
is_standard standard = true
is_standard unified = false

pub data Role : Type 0 where
  of_source of_follower : Role

abbrev pub Scope : Type 0
Scope = Option (List Text)

pub record Stream : Type 0 where
  pub source_address : Text
  pub follower_address : Text
  pub fill_dedupe_capacity : ℕ
  pub source_account_mode : AccountMode
  pub source_markets : Scope
  pub follower_markets : Scope
  pub accept_source_markets_outside_scope : Bool
  pub source_dexes : List Text
  pub connection_epoch : ℕ
  pub last_connection_activity_ms : ℕ
  pub source : MutableAccount
  pub follower : MutableAccount
  pub fill_fingerprints : List Entry

-- `market in markets`
abbrev pub member : Text → List Text → Bool
member m [] = false
member m (n ∷ ms) = text_eq n m || member m ms

abbrev all_members : List Text → List Text → Bool
all_members [] ms = true
all_members (n ∷ ns) ms = member n ms && all_members ns ms

abbrev same_set : List Text → List Text → Bool
same_set ns ms = all_members ns ms && all_members ms ns

abbrev pub in_stream : Result MarketIdentityError Text → Result AccountStreamError Text
in_stream (err e) = err bad_market
in_stream (ok t) = ok t

abbrev canonical_markets : List Text → Result AccountStreamError (List Text)
canonical_markets [] = ok []
canonical_markets (m ∷ ms) = do
  market ← in_stream (canonical_market m)
  rest ← canonical_markets ms
  ok (market ∷ rest)

-- `_market_scope`
abbrev pub market_scope : Option (List Text) → Result AccountStreamError Scope
market_scope none = ok none
market_scope (some markets) = do ms ← canonical_markets markets; ok (some ms)

-- `market_dex` of a stream's market
abbrev pub dex_of : Text → Result AccountStreamError Text
dex_of m = in_stream (market_dex m)

abbrev dexes_of : List Text → Result AccountStreamError (List Text)
dexes_of [] = ok []
dexes_of (m ∷ ms) = do dex ← dex_of m; rest ← dexes_of ms; ok (dex ∷ rest)

abbrev pub scope_dexes : Scope → Result AccountStreamError (List Text)
scope_dexes none = ok []
scope_dexes (some ms) = dexes_of ms

abbrev pub no_scope : Scope → Bool
no_scope none = true
no_scope (some []) = true
no_scope (some (m ∷ ms)) = false

abbrev pub mode_of : Text → Result AccountStreamError AccountMode
mode_of t =
    if text_eq t (codes "standard")
    then ok standard
    else if text_eq t (codes "unified")
    then ok unified
    else err bad_mode

-- `__init__`
unfoldable pub account_stream :
    Text
    → Text
    → Text
    → Option (List Text)
    → Option (List Text)
    → Bool
    → ℕ
    → Result AccountStreamError Stream
account_stream source follower mode_text source_markets follower_markets outside capacity = do
  source_address ← account_of source
  follower_address ← account_of follower
  require (not (text_eq source_address follower_address)) same_account
  require (leb 1 capacity) bad_capacity
  mode ← mode_of (lower (strip mode_text))
  source_scope ← market_scope source_markets
  follower_scope ← market_scope follower_markets
  require (not (is_standard mode && no_scope source_scope)) no_markets
  dexes ← scope_dexes source_scope
  ok (record {
    source_address = source_address;
    follower_address = follower_address;
    fill_dedupe_capacity = capacity;
    source_account_mode = mode;
    source_markets = source_scope;
    follower_markets = follower_scope;
    accept_source_markets_outside_scope = outside;
    source_dexes = dexes;
    connection_epoch = 0;
    last_connection_activity_ms = 0;
    source = empty_account;
    follower = empty_account;
    fill_fingerprints = [];
  })

abbrev without_equity : MutableAccount → MutableAccount
without_equity a = record a {
  perp_equity_by_dex = [];
  component_received_ms = set_time perp_equity none a.component_received_ms;
  component_observed_ms = set_time perp_equity none a.component_observed_ms;
}

abbrev rescoped_source : Bool → MutableAccount → MutableAccount
rescoped_source true a = without_equity a
rescoped_source false a = a

-- `set_market_scope`
unfoldable pub set_market_scope :
    Option (List Text) → Option (List Text) → Stream → Result AccountStreamError Stream
set_market_scope source_markets follower_markets s = do
  source_scope ← market_scope source_markets
  require (not (is_standard s.source_account_mode && no_scope source_scope)) no_markets
  next_source_dexes ← scope_dexes source_scope
  follower_scope ← market_scope follower_markets
  let dex_scope_changed = not (same_set next_source_dexes s.source_dexes)
  ok (record s {
    source_markets = source_scope;
    follower_markets = follower_scope;
    source_dexes = next_source_dexes;
    source = rescoped_source (is_standard s.source_account_mode && dex_scope_changed) s.source;
  })

-- `begin_connection`; the returned epoch is the stream's.
unfoldable pub begin_connection : ℤ → Stream → Result AccountStreamError Stream
begin_connection (negsuc n) s = err negative_connection_time
begin_connection (pos received_ms) s = ok (record s {
  connection_epoch = suc s.connection_epoch;
  last_connection_activity_ms = received_ms;
  source = empty_account;
  follower = empty_account;
})

abbrev positive_time : ℤ → Result AccountStreamError ℕ
positive_time (negsuc n) = err bad_receive_time
positive_time (pos n) = do require (ltb 0 n) bad_receive_time; ok n

-- `_validate_frame`, which gives the time of receipt back as a positive number
unfoldable pub validate_frame : ℕ → ℤ → Stream → Result AccountStreamError ℕ
validate_frame epoch received_ms s = do
  require (not (s.connection_epoch == 0)) not_connected
  require (epoch == s.connection_epoch) stale_epoch
  positive_time received_ms

abbrev pub seen_at : ℕ → Stream → Stream
seen_at received_ms s = record s {
  last_connection_activity_ms = max s.last_connection_activity_ms received_ms;
}

-- `note_connection_activity`
unfoldable pub note_connection_activity : ℕ → ℤ → Stream → Result AccountStreamError Stream
note_connection_activity epoch received_ms s = do
  at ← validate_frame epoch received_ms s
  ok (seen_at at s)

abbrev source_components : AccountMode → List Component
source_components standard = positions ∷ perp_equity ∷ fills ∷ twap_fills ∷ []
source_components unified = positions ∷ collateral ∷ fills ∷ twap_fills ∷ []

-- _FOLLOWER_COMPONENTS
abbrev follower_components : List Component
follower_components = positions ∷ collateral ∷ open_orders ∷ fills ∷ []

abbrev pub is_known : Option ℕ → Bool
is_known none = false
is_known (some t) = true

-- `AccountSnapshot.baseline_complete`
abbrev pub baseline_complete : List Component → Times → Bool
baseline_complete [] t = true
baseline_complete (c ∷ cs) t = is_known (time_of c t) && baseline_complete cs t

-- `baseline_ready`
unfoldable pub baseline_ready : Stream → Bool
baseline_ready s =
    baseline_complete (source_components s.source_account_mode) s.source.component_received_ms
    && baseline_complete follower_components s.follower.component_received_ms

-- `AccountStream.is_fresh`
unfoldable pub is_fresh : ℕ → ℤ → Stream → Result AccountStreamError Bool
unfolding baseline_ready
is_fresh now_ms (negsuc n) s = err bad_age
is_fresh now_ms (pos max_age_ms) s = do
  require (ltb 0 max_age_ms) bad_age
  ok (
      baseline_ready s
      && leb s.last_connection_activity_ms now_ms
      && leb (now_ms - s.last_connection_activity_ms) max_age_ms)

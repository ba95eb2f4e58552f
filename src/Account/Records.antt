-- ===== src/Account/Records.antt =====
-- The records of account_stream.py, with `Position` of models.py. Sizes and prices are numbers of quanta, as
-- in the journal. A dictionary is the list of its entries in the order of insertion.
use hyperliquid_copytrader.Base.{
  ℕ, Bool, true, false, ◌&&◌, List, [], ◌∷◌, Option, none, some, ◌==◌, if◌then◌else◌,
}
use hyperliquid_copytrader.Base.Int.{ℤ, pos, neg_part, pos_part, ◌-ℤ◌}
use hyperliquid_copytrader.Base.Text.{Text, text_eq}

pub data AccountStreamError : Type 0 where
  not_connected stale_epoch bad_receive_time negative_connection_time : AccountStreamError
  bad_data bad_account unconfigured_account bad_market : AccountStreamError
  snapshot_undeclared live_before_snapshot bad_rows bad_row bad_number : AccountStreamError
  missing_hash missing_tid bad_side missing_size_or_price not_positive : AccountStreamError
  conflicting_duplicate identity_changed : AccountStreamError
  missing_start_position broken_chain : AccountStreamError
  duplicate_position positions_backwards positions_contradict : AccountStreamError
  missing_dex missing_equity negative_equity nonflat_without_equity no_equity : AccountStreamError
  bad_balances not_one_usdc not_usdc missing_total bad_collateral collateral_backwards :
      AccountStreamError
  bad_dex missing_side conflicting_sides missing_size missing_identity bad_reduce_only :
      AccountStreamError
  bad_cloid duplicate_order not_follower missing_order missing_status : AccountStreamError
  different_orders unknown_status bad_message unsupported_channel : AccountStreamError
  bad_mode same_account bad_capacity no_markets bad_age : AccountStreamError

pub data Side : Type 0 where
  buy sell : Side

abbrev pub side_eq : Side → Side → Bool
side_eq buy buy = true
side_eq sell sell = true
side_eq _ _ = false

pub record Position : Type 0 where
  pub coin : Text
  pub size : ℤ
  pub entry_px : Option ℕ
  pub leverage : Option ℕ
  pub updated_ms : ℕ

pub record UsdcCollateral : Type 0 where
  pub total : ℕ
  pub hold : ℕ
  pub available : ℕ
  pub observed_ms : ℕ
  pub received_ms : ℕ

-- `OpenOrder` of models.py
pub record OpenOrder : Type 0 where
  pub coin : Text
  pub side : Side
  pub size : ℕ
  pub price : Option ℕ
  pub oid : Option ℕ
  pub cloid : Option Text
  pub reduce_only : Bool
  pub updated_ms : ℕ

-- `identity` of a fill.
pub record Identity : Type 0 where
  pub account : Text
  pub tx_hash : Text
  pub tid : Text

pub record FillRecord : Type 0 where
  pub account : Text
  pub market : Text
  pub tx_hash : Text
  pub tid : Text
  pub time_ms : ℕ
  pub side : Side
  pub size : ℕ
  pub price : ℕ
  pub start_position : Option ℤ
  pub oid : Option ℕ
  pub received_ms : ℕ
  pub connection_epoch : ℕ
  pub is_snapshot : Bool

abbrev pub identity : FillRecord → Identity
identity f = record { account = f.account; tx_hash = f.tx_hash; tid = f.tid }

abbrev signed : Side → ℕ → ℤ
signed buy size = pos size
signed sell size = pos 0 -ℤ pos size

-- `signed_size`
abbrev pub signed_size : FillRecord → ℤ
signed_size f = signed f.side f.size

abbrev pub identity_eq : Identity → Identity → Bool
identity_eq a b = text_eq a.account b.account && text_eq a.tx_hash b.tx_hash && text_eq a.tid b.tid

-- `_FillFingerprint`
pub record Fingerprint : Type 0 where
  pub market : Text
  pub time_ms : ℕ
  pub side : Side
  pub size : ℕ
  pub price : ℕ
  pub start_position : Option ℤ
  pub oid : Option ℕ

-- `_fill_fingerprint`
abbrev pub fill_fingerprint : FillRecord → Fingerprint
fill_fingerprint f = record {
  market = f.market;
  time_ms = f.time_ms;
  side = f.side;
  size = f.size;
  price = f.price;
  start_position = f.start_position;
  oid = f.oid;
}

abbrev pub int_eq : ℤ → ℤ → Bool
int_eq a b = pos_part a == pos_part b && neg_part a == neg_part b

abbrev option_eq {ℓ} : {A : Type ℓ} → (A → A → Bool) → Option A → Option A → Bool
option_eq same none none = true
option_eq same (some a) (some b) = same a b
option_eq same _ _ = false

abbrev pub fingerprint_eq : Fingerprint → Fingerprint → Bool
fingerprint_eq a b =
    text_eq a.market b.market
    && a.time_ms == b.time_ms
    && side_eq a.side b.side
    && a.size == b.size
    && a.price == b.price
    && option_eq int_eq a.start_position b.start_position
    && option_eq (λ m n. m == n) a.oid b.oid

module _ {ℓ} {A : Type ℓ} where
  -- `entries.get(key)`
  unfoldable pub look_up : Text → List (Text × A) → Option A
  look_up key [] = none
  look_up key ((k, v) ∷ rest) = if text_eq k key then some v else look_up key rest

  -- `entries[key] = value`
  unfoldable pub put : Text → A → List (Text × A) → List (Text × A)
  put key value [] = (key, value) ∷ []
  put key value ((k, v) ∷ rest) =
      if text_eq k key then (k, value) ∷ rest else (k, v) ∷ put key value rest

pub data Component : Type 0 where
  positions collateral perp_equity open_orders fills twap_fills : Component

-- A time for each component, where one is known.
pub record Times : Type 0 where
  pub positions : Option ℕ
  pub collateral : Option ℕ
  pub perp_equity : Option ℕ
  pub open_orders : Option ℕ
  pub fills : Option ℕ
  pub twap_fills : Option ℕ

abbrev pub no_times : Times
no_times = record {
  positions = none;
  collateral = none;
  perp_equity = none;
  open_orders = none;
  fills = none;
  twap_fills = none;
}

abbrev pub time_of : Component → Times → Option ℕ
time_of positions t = t.positions
time_of collateral t = t.collateral
time_of perp_equity t = t.perp_equity
time_of open_orders t = t.open_orders
time_of fills t = t.fills
time_of twap_fills t = t.twap_fills

abbrev pub set_time : Component → Option ℕ → Times → Times
set_time positions v t = record t { positions = v }
set_time collateral v t = record t { collateral = v }
set_time perp_equity v t = record t { perp_equity = v }
set_time open_orders v t = record t { open_orders = v }
set_time fills v t = record t { fills = v }
set_time twap_fills v t = record t { twap_fills = v }

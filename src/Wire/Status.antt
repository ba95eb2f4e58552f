-- ===== src/Wire/Status.antt =====
-- `classify_order_status` (reconciliation.py): what a reply to `orderStatus` says of an order.
use hyperliquid_copytrader.Base.{
  ℕ, ◌-◌, Bool, true, false, ◌||◌, ◌&&◌, List, [], ◌∷◌, ◌++◌, map, Option, none, some, max, ltb,
  leb, ◌==◌, if◌then◌else◌,
}
use hyperliquid_copytrader.Base.Int.{ℤ, pos}
use hyperliquid_copytrader.Base.Text.{Text, codes, text_eq, lower}
use hyperliquid_copytrader.Journal.Records.{DecimalText, finite}
use hyperliquid_copytrader.Wire.Json.{
  Json, string, array, object, Items, nil, cons, Fields, end, field, get, decimal_of, int_of,
}
use hyperliquid_copytrader.Wire.Classify.{one_of}

pub data OrderState : Type 0 where
  filled cancelled rejected expired partially_filled resting : OrderState
  reported_fill_exceeds_submitted_size unknown_transport_outcome : OrderState

pub record OrderStatusResolution : Type 0 where
  pub resolved : Bool
  pub terminal : Bool
  pub state : OrderState
  pub cumulative_filled_abs : ℕ
  pub oid : Option ℤ

-- What `visit` collects.
pub record Found : Type 0 where
  pub statuses : List Text
  pub quantities : List ℕ
  pub original_sizes : List ℕ
  pub remaining_sizes : List ℕ
  pub oid : Option ℤ

abbrev pub nothing_found : Found
nothing_found = record {
  statuses = [];
  quantities = [];
  original_sizes = [];
  remaining_sizes = [];
  oid = none;
}

-- `decimal_value`
abbrev decimal_value : DecimalText → List ℕ
decimal_value (finite (pos n)) = n ∷ []
decimal_value _ = []

abbrev status_text : Json → List Text
status_text (string t n) = t ∷ []
status_text _ = []

abbrev values_of : List Text → Fields → List ℕ
values_of [] fs = []
values_of (key ∷ keys) fs = decimal_value (decimal_of (get key fs)) ++ values_of keys fs

abbrev first_oid : Option ℤ → Option ℤ → Option ℤ
first_oid none new = new
first_oid (some old) new = some old

-- The reads of `visit` from one object.
unfoldable pub read_object : Fields → Found → Found
read_object fs acc = record {
  statuses = acc.statuses ++ status_text (get (codes "status") fs);
  quantities =
      acc.quantities
      ++ values_of
          (codes "totalSz" ∷ codes "filledSz" ∷ codes "filledSize" ∷ codes "executedSz" ∷ []) fs;
  original_sizes = acc.original_sizes ++ values_of (codes "origSz" ∷ codes "originalSz" ∷ []) fs;
  remaining_sizes = acc.remaining_sizes ++ values_of (codes "sz" ∷ []) fs;
  oid = first_oid acc.oid (int_of (get (codes "oid") fs));
}

unfoldable mutual
  pub visit : Json → Found → Found
  visit (object fs) acc = visit_fields fs (read_object fs acc)
  visit (array xs) acc = visit_items xs acc
  visit _ acc = acc

  pub visit_fields : Fields → Found → Found
  visit_fields end acc = acc
  visit_fields (field k v fs) acc = visit_fields fs (visit v acc)

  pub visit_items : Items → Found → Found
  visit_items nil acc = acc
  visit_items (cons v xs) acc = visit_items xs (visit v acc)

abbrev is_alnum : ℕ → Bool
is_alnum c = (leb b'0' c && leb c b'9') || (leb b'a' c && leb c b'z')

keep_alnum : Text → Text
keep_alnum [] = []
keep_alnum (c ∷ s) = let rest = keep_alnum s in if is_alnum c then c ∷ rest else rest

unfoldable pub normalized_status : Text → Text
unfolding keep_alnum
normalized_status status = keep_alnum (lower status)

abbrev maximum : List ℕ → ℕ
maximum [] = 0
maximum (n ∷ ns) = max n (maximum ns)

abbrev minimum : ℕ → List ℕ → ℕ
minimum n [] = n
minimum n (m ∷ ms) = let rest = minimum m ms in if ltb n rest then n else rest

-- The fill that the original and the remaining sizes give.
abbrev size_difference : List ℕ → List ℕ → ℕ
size_difference (o ∷ os) (r ∷ rs) = max o (maximum os) - minimum r rs
size_difference _ _ = 0

unfoldable pub cumulative_of : Found → ℕ
cumulative_of f = max (maximum f.quantities) (size_difference f.original_sizes f.remaining_sizes)

ends_with : Text → Text → Bool
ends_with suffix [] = text_eq [] suffix
ends_with suffix (c ∷ s) = text_eq (c ∷ s) suffix || ends_with suffix s

-- The dictionary `terminal_states`, then the suffixes; every cancellation of the dictionary ends in
-- one of the two suffixes.
unfoldable pub terminal_state : Text → Option OrderState
unfolding ends_with
terminal_state status =
    if text_eq status (codes "filled")
    then some filled
    else if text_eq status (codes "expired")
    then some expired
    else if text_eq status (codes "scheduledcancel")
        || ends_with (codes "canceled") status
        || ends_with (codes "cancelled") status
    then some cancelled
    else if ends_with (codes "rejected") status
    then some rejected
    else none

unfoldable pub open_state : Text → Option OrderState
open_state status =
    if one_of (codes "partiallyfilled" ∷ codes "partialfill" ∷ []) status
    then some partially_filled
    else if one_of (codes "open" ∷ codes "resting" ∷ codes "triggered" ∷ codes "pending" ∷ [])
        status
    then some resting
    else none

abbrev pub first_state : (Text → Option OrderState) → List Text → Option OrderState
first_state read [] = none
first_state read (s ∷ ss) = elim (read s) [ some t ↦ some t | none ↦ first_state read ss ]

abbrev filled_or_all : OrderState → ℕ → ℕ → ℕ
filled_or_all filled cumulative expected = if cumulative == 0 then expected else cumulative
filled_or_all s cumulative expected = cumulative

unfoldable pub resolve_found :
    ℕ → ℕ → Option ℤ → Option OrderState → Option OrderState → OrderStatusResolution
resolve_found expected cumulative oid (some s) later = record {
  resolved = true;
  terminal = true;
  state = s;
  cumulative_filled_abs = filled_or_all s cumulative expected;
  oid = oid;
}
resolve_found expected cumulative oid none (some s) = record {
  resolved = true;
  terminal = false;
  state = s;
  cumulative_filled_abs = cumulative;
  oid = oid;
}
resolve_found expected cumulative oid none none = record {
  resolved = false;
  terminal = false;
  state = unknown_transport_outcome;
  cumulative_filled_abs = cumulative;
  oid = oid;
}

unfoldable pub resolve_cumulative : ℕ → ℕ → Found → OrderStatusResolution
resolve_cumulative expected cumulative f =
    if ltb expected cumulative
    then record {
      resolved = false;
      terminal = false;
      state = reported_fill_exceeds_submitted_size;
      cumulative_filled_abs = cumulative;
      oid = f.oid;
    }
    else let words = map normalized_status f.statuses in
      resolve_found expected cumulative f.oid (first_state terminal_state words)
        (first_state open_state words)

-- `classify_order_status`, after the check that the expected size is positive.
unfoldable pub classify_order_status : Json → ℕ → OrderStatusResolution
classify_order_status payload expected_size =
    let f = visit payload nothing_found in resolve_cumulative expected_size (cumulative_of f) f

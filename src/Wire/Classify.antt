-- ===== src/Wire/Classify.antt =====
-- `classify_ioc_response` and the functions that it calls (ws_actions.py). `shown` is Python's `str`
-- of a JSON value that is not a string.
use hyperliquid_copytrader.Base.{
  ℕ, Bool, true, false, ◌||◌, List, [], ◌∷◌, ◌++◌, Option, none, some, ltb, ◌==◌, if◌then◌else◌,
}
use mathlib.Core.List.{take}
use hyperliquid_copytrader.Base.Int.{ℤ, pos}
use hyperliquid_copytrader.Base.Text.{Text, codes, text_eq, lower}
use hyperliquid_copytrader.Journal.Records.{DecimalText, finite}
use hyperliquid_copytrader.Wire.Json.{
  Json, null, bool, number, string, array, object, Items, nil, cons, Fields, end, field, look_up,
  get, decimal_of, int_of, is_text, truthy, magnitude, squash,
}
use hyperliquid_copytrader.Wire.Results.{
  PostOutcome, PostResult, post_result, unknown, rejected, filled, partially_filled, cancelled,
}

abbrev mappings : Items → List Fields
mappings nil = []
mappings (cons (object fs) xs) = fs ∷ mappings xs
mappings (cons x xs) = mappings xs

abbrev statuses_in : Json → Option (List Fields)
statuses_in (array xs) = some (mappings xs)
statuses_in _ = none

abbrev data_statuses : Json → Option (List Fields)
data_statuses (object ds) = statuses_in (get (codes "statuses") ds)
data_statuses _ = none

abbrev pub or_else {ℓ} : {A : Type ℓ} → Option A → A → A
or_else none b = b
or_else (some a) b = a

abbrev first_some {ℓ} : {A : Type ℓ} → Option A → Option A → Option A
first_some none b = b
first_some (some a) b = some a

abbrev first_nonempty {ℓ} : {A : Type ℓ} → List A → List A → List A
first_nonempty [] ys = ys
first_nonempty (x ∷ xs) ys = x ∷ xs

abbrev direct_statuses : Fields → Option (List Fields)
direct_statuses fs =
    first_some (data_statuses (get (codes "data") fs)) (statuses_in (get (codes "statuses") fs))

-- `_item_statuses`
unfoldable mutual
  pub item_statuses : Json → List Fields
  item_statuses (object fs) = or_else (direct_statuses fs) (nested_statuses fs)
  item_statuses _ = []

  pub nested_statuses : Fields → List Fields
  nested_statuses end = []
  nested_statuses (field k v fs) = first_nonempty (item_statuses v) (nested_statuses fs)

abbrev finite_size : DecimalText → Option ℕ
finite_size (finite n) = some (magnitude n)
finite_size _ = none

-- The first of the keys whose value is not null.
abbrev first_value : List Text → Fields → Json
first_value [] fs = null
first_value (key ∷ keys) fs = elim (get key fs) [
  | null ↦ first_value keys fs
  | bool b ↦ bool b
  | number n ↦ number n
  | string t n ↦ string t n
  | array xs ↦ array xs
  | object gs ↦ object gs
]

abbrev size_keys : List Text
size_keys = codes "totalSz" ∷ codes "sz" ∷ codes "size" ∷ []

abbrev price_keys : List Text
price_keys = codes "avgPx" ∷ codes "averagePx" ∷ codes "averagePrice" ∷ []

abbrev size_of_fill : Json → Option ℕ
size_of_fill (object fs) = finite_size (decimal_of (first_value size_keys fs))
size_of_fill _ = none

-- `_filled_size`
unfoldable pub filled_size : Fields → Option ℕ
filled_size status = size_of_fill (get (codes "filled") status)

abbrev positive_price : DecimalText → Option ℕ
positive_price (finite (pos n)) = if ltb 0 n then some n else none
positive_price _ = none

abbrev nonnegative_id : Option ℤ → Option ℕ
nonnegative_id (some (pos n)) = some n
nonnegative_id _ = none

abbrev price_and_oid : Json → Option ℕ × Option ℕ
price_and_oid (object fs) = (
  positive_price (decimal_of (first_value price_keys fs)),
  nonnegative_id (int_of (get (codes "oid") fs)),
)
price_and_oid _ = (none, none)

-- `_filled_price_and_oid`
unfoldable pub filled_price_and_oid : Fields → Option ℕ × Option ℕ
filled_price_and_oid status = price_and_oid (get (codes "filled") status)

abbrev has {ℓ} : {A : Type ℓ} → Option A → Bool
has none = false
has (some a) = true

abbrev pub one_of : List Text → Text → Bool
one_of [] word = false
one_of (w ∷ ws) word = text_eq w word || one_of ws word

-- The value of the first key that, lowered, is one of the words.
unfoldable pub value_under : List Text → Fields → Option Json
value_under words end = none
value_under words (field k v fs) = if one_of words (lower k) then some v else value_under words fs

-- The part of `classify_ioc_response` on a fill that is reported with a size.
unfoldable pub classify_fill : ℕ → Json → Fields → ℕ → PostResult
classify_fill expected_size response item size =
    let (average, oid) = filled_price_and_oid item in
    let done = λ (outcome : PostOutcome) (reason : Text).
      record (post_result 0 outcome response reason) {
        filled_size = size;
        average_fill_price = average;
        order_id = oid;
      } in
    if size == 0
    then post_result 0 unknown response (codes "invalid_filled_size")
    else if ltb expected_size size
    then post_result 0 unknown response (codes "reported_fill_exceeds_submitted_size")
    else if ltb size expected_size
    then done partially_filled (codes "ioc_partial_fill_terminal")
    else done filled (codes "filled")

-- Its part on an item with neither an error nor a fill.
unfoldable pub classify_open : Json → Fields → PostResult
classify_open response item =
    if has (look_up (codes "resting") item)
    then post_result 0 unknown response (codes "ioc_resting_protocol_error")
    else if has (value_under (codes "cancel" ∷ codes "cancelled" ∷ codes "canceled" ∷ []) item)
    then post_result 0 cancelled response (codes "ioc_cancelled")
    else post_result 0 unknown response (codes "unclassified_item_status")

-- Its part on an item with no error.
unfoldable pub classify_size : ℕ → Json → Fields → Option ℕ → PostResult
classify_size expected_size response item none = classify_open response item
classify_size expected_size response item (some size) =
    classify_fill expected_size response item size

-- The payload of an envelope of the type.
abbrev pub unwrapped : Text → Json → Json
unwrapped kind (object fs) =
    if is_text kind (get (codes "type") fs) then get (codes "payload") fs else object fs
unwrapped kind v = v

module _ (shown : Json → Text) where
  abbrev pub str : Json → Text
  str (string t n) = t
  str v = shown v

  abbrev server_error_detail : Fields → Text
  server_error_detail fs =
      let e = get (codes "error") fs in
      let m = get (codes "message") fs in
      str (if truthy e then e else if truthy m then m else object fs)

  -- `_bounded_exchange_error` of an object
  unfoldable pub bounded_exchange_error : Fields → Text
  bounded_exchange_error fs =
      let normalized = take 240 (squash (server_error_detail fs)) in
      if text_eq normalized (codes "{}") then [] else normalized

  abbrev with_detail : Text → Text → Text
  with_detail reason [] = reason
  with_detail reason (c ∷ detail) = reason ++ codes ": " ++ (c ∷ detail)

  -- Its part on the one item.
  unfoldable pub classify_item : ℕ → Json → Fields → PostResult
  classify_item expected_size response item =
      elim (value_under (codes "error" ∷ codes "err" ∷ []) item) [
        | some value ↦
            post_result 0 rejected response
              (with_detail (codes "item_error") (take 240 (squash (str value))))
        | none ↦ classify_size expected_size response item (filled_size item)
      ]

  unfoldable pub classify_statuses : ℕ → Json → List Fields → PostResult
  classify_statuses expected_size response (item ∷ []) = classify_item expected_size response item
  classify_statuses expected_size response _ =
      post_result 0 unknown response (codes "missing_or_ambiguous_item_status")

  abbrev status_word : Fields → Text
  status_word fs =
      let status = get (codes "status") fs in if truthy status then lower (str status) else []

  abbrev error_words : List Text
  error_words = codes "err" ∷ codes "error" ∷ codes "failed" ∷ codes "rejected" ∷ []

  unfoldable pub classify_payload : ℕ → Json → Json → PostResult
  classify_payload expected_size response (object fs) =
      if is_text (codes "error") (get (codes "type") fs)
      then post_result 0 rejected response
          (with_detail (codes "server_error_response") (bounded_exchange_error fs))
      else if one_of error_words (status_word fs)
      then post_result 0 rejected response
          (with_detail (codes "top_level_error") (bounded_exchange_error fs))
      else classify_statuses expected_size response
          (item_statuses (or_else (look_up (codes "response") fs) (object fs)))
  classify_payload expected_size response _ =
      post_result 0 unknown response (codes "malformed_action_response")

  -- `classify_ioc_response`, after the check that the expected size is positive.
  unfoldable pub classify_ioc_response : ℕ → Json → PostResult
  classify_ioc_response expected_size response =
      classify_payload expected_size response (unwrapped (codes "action") response)

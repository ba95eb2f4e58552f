-- ===== src/Throttle/Weights.antt =====
-- `rest_request_weight` and the weight of a response (rest_throttle.py).
use hyperliquid_copytrader.Base.{
  ℕ, suc, ◌+◌, ◌/◌, Bool, true, false, ◌||◌, List, [], ◌∷◌, Option, none, some, ◌==◌, if◌then◌else◌,
}
use hyperliquid_copytrader.Base.Text.{Text, codes, strip, lower}
use hyperliquid_copytrader.Wire.Json.{Json, array, object, Items, nil, cons, Fields, get}
use hyperliquid_copytrader.Wire.Classify.{one_of}

abbrev has_colon : Text → Bool
has_colon [] = false
has_colon (c ∷ s) = c == b':' || has_colon s

-- `label.rsplit(":", 1)[-1]`
after_last_colon : Text → Text
after_last_colon [] = []
after_last_colon (c ∷ s) =
    let rest = after_last_colon s in if has_colon s then rest else if c == b':' then s else c ∷ s

-- The hyphens become underscores, then spaces and underscores go.
without_separators : Text → Text
without_separators [] = []
without_separators (c ∷ s) =
    let rest = without_separators s in
    if c == b'-' || c == b'_' || c == b' ' then rest else c ∷ rest

-- `_normalized_request_type`
unfoldable pub normalized_request_type : Text → Text
unfolding after_last_colon without_separators
normalized_request_type label = without_separators (lower (strip (after_last_colon label)))

-- _WEIGHT_TWO_INFO_TYPES
abbrev weight_two_info_types : List Text
weight_two_info_types =
    codes "allmids"
    ∷ codes "clearinghousestate"
    ∷ codes "exchangestatus"
    ∷ codes "l2book"
    ∷ codes "orderstatus"
    ∷ codes "spotclearinghousestate"
    ∷ codes "userstate"
    ∷ []

-- _WEIGHT_SIXTY_INFO_TYPES
abbrev weight_sixty_info_types : List Text
weight_sixty_info_types = codes "user_role" ∷ codes "userrole" ∷ []

-- _RESPONSE_WEIGHTED_INFO_TYPES
abbrev response_weighted_info_types : List Text
response_weighted_info_types =
    codes "fundinghistory"
    ∷ codes "historicalorders"
    ∷ codes "nonuserfundingupdates"
    ∷ codes "recenttrades"
    ∷ codes "twaphistory"
    ∷ codes "userfills"
    ∷ codes "userfillsbytime"
    ∷ codes "userfunding"
    ∷ codes "usertwaphistory"
    ∷ codes "usertwapslicefills"
    ∷ codes "usertwapslicefillsbytime"
    ∷ []

abbrev pub starts_with : Text → Text → Bool
starts_with [] s = true
starts_with (c ∷ p) [] = false
starts_with (c ∷ p) (d ∷ s) = if c == d then starts_with p s else false

-- `rest_request_weight`
unfoldable pub rest_request_weight : Text → ℕ
rest_request_weight label =
    let normalized = normalized_request_type label in
    if starts_with (codes "exchange:") (lower label)
    then 1
    else if one_of weight_two_info_types normalized
    then 2
    else if one_of weight_sixty_info_types normalized
    then 60
    else 20

abbrev count : Items → ℕ
count nil = 0
count (cons v xs) = suc (count xs)

abbrev list_length : Json → Option ℕ
list_length (array xs) = some (count xs)
list_length _ = none

abbrev first_list : List Text → Fields → ℕ
first_list [] fs = 0
first_list (key ∷ keys) fs = elim (list_length (get key fs)) [
  | some n ↦ n
  | none ↦ first_list keys fs
]

-- `_response_item_count`
unfoldable pub response_item_count : Json → ℕ
response_item_count (array xs) = count xs
response_item_count (object fs) =
    first_list (codes "fills" ∷ codes "orders" ∷ codes "rows" ∷ codes "data" ∷ []) fs
response_item_count _ = 0

-- The weight that `_record_response_weight` reserves after a response, where it reserves one.
unfoldable pub response_weight : Text → Json → Option ℕ
response_weight label result =
    let item_count = response_item_count result in
    if one_of response_weighted_info_types (normalized_request_type label)
    then (if item_count == 0 then none else some ((item_count + 19) / 20))
    else none

-- ===== src/Wire/Classified.antt =====
-- What `classify_ioc_response` may report of a fill.
use hyperliquid_copytrader.Base.{ℕ, ◌<◌, ◌≡◌, ◌≢◌, List, [], ◌∷◌, Option, none, some, arith}
use hyperliquid_copytrader.Base.Text.{Text, codes}
use hyperliquid_copytrader.Wire.Json.{
  Json, look_up, null, bool, number, string, array, object, Fields,
}
use hyperliquid_copytrader.Wire.Results.{
  PostOutcome, PostResult, not_sent, filled, partially_filled, info,
}
use hyperliquid_copytrader.Wire.Classify.{
  item_statuses, or_else, filled_size, classify_fill, classify_open, classify_size, classify_item,
  classify_statuses, classify_payload, classify_ioc_response,
}

-- The size that an outcome may carry for an order of the expected size.
abbrev pub OutcomeFits : PostOutcome → ℕ → ℕ → Type 0
OutcomeFits filled size expected = size ≡ expected
OutcomeFits partially_filled size expected = (0 < size) × (size < expected)
OutcomeFits _ size expected = size ≡ 0

pub record Classified (expected : ℕ) (response : Json) (r : PostResult) : Type 0 where
  pub fits : OutcomeFits r.outcome r.filled_size expected
  pub same_response : r.response ≡ response
  pub was_answered : (r.outcome ≢ not_sent) × (r.outcome ≢ info)

classify_fill-Classified :
    (expected : ℕ) (response : Json) (item : Fields) (size : ℕ)
    → Classified expected response (classify_fill expected response item size)
unfolding classify_fill
classify_fill-Classified expected response item size = ground arith

classify_open-Classified :
    (expected : ℕ) (response : Json) (item : Fields)
    → Classified expected response (classify_open response item)
unfolding classify_open
classify_open-Classified expected response item = ground arith

classify_size-Classified :
    (expected : ℕ) (response : Json) (item : Fields) (size : Option ℕ)
    → Classified expected response (classify_size expected response item size)
unfolding classify_size
classify_size-Classified expected response item none =
    classify_open-Classified expected response item
classify_size-Classified expected response item (some size) =
    classify_fill-Classified expected response item size

module _ (shown : Json → Text) (expected : ℕ) (response : Json) where
  classify_item-Classified :
      (item : Fields) → Classified expected response (classify_item shown expected response item)
  unfolding classify_item
  classify_item-Classified item =
      ground (arith, classify_size-Classified expected response item (filled_size item))

  classify_statuses-Classified :
      (items : List Fields)
      → Classified expected response (classify_statuses shown expected response items)
  unfolding classify_statuses
  classify_statuses-Classified [] = ground arith
  classify_statuses-Classified (item ∷ []) = classify_item-Classified item
  classify_statuses-Classified (item ∷ other ∷ items) = ground arith

  classify_payload-Classified :
      (payload : Json)
      → Classified expected response (classify_payload shown expected response payload)
  unfolding classify_payload
  classify_payload-Classified null = ground arith
  classify_payload-Classified (bool b) = ground arith
  classify_payload-Classified (number n) = ground arith
  classify_payload-Classified (string t n) = ground arith
  classify_payload-Classified (array xs) = ground arith
  classify_payload-Classified (object fs) = ground (
    arith,
    classify_statuses-Classified
        (item_statuses (or_else (look_up (codes "response") fs) (object fs))),
  )

  -- Whatever the venue answers, a reported complete fill has exactly the expected size, a partial
  -- fill lies strictly between zero and it, and every other outcome carries no fill; the outcome is
  -- never NOT_SENT or INFO, and the response is kept.
  pub classify_ioc_response-Classified :
      Classified expected response (classify_ioc_response shown expected response)
  unfolding classify_ioc_response
  classify_ioc_response-Classified = classify_payload-Classified _

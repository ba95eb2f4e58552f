-- ===== src/Throttle/Tests.antt =====
-- The throttle on concrete inputs.
use hyperliquid_copytrader.Base.{
  ℕ, ◌+◌, ◌≡◌, refl, true, List, [], ◌∷◌, none, some, arith, ◌==◌, if◌then◌else◌,
}
use hyperliquid_copytrader.Base.Text.{codes, text_eq, strip, lower}
use hyperliquid_copytrader.Journal.Records.{ok}
use hyperliquid_copytrader.Wire.Json.{get, look_up}
use hyperliquid_copytrader.Throttle.Weights.{rest_request_weight, normalized_request_type}
use hyperliquid_copytrader.Throttle.Reserve.{
  Reservation, reserve_weight, scheduled_ms, valid_next_available_ms, written_state,
}
use hyperliquid_copytrader.Throttle.Spacing.{reserve_all, late_holder_jumps_queue}
use hyperliquid_copytrader.Throttle.Backoff.{
  RestException, Attempt, returns, raises, value, call_with_rest_backoff, attempts_from,
  retryable_rest_error,
}
use hyperliquid_copytrader.Throttle.Retries.{Ended, call_with_rest_backoff-Ended}

every_clause : Unit {0}
unfolding rest_request_weight normalized_request_type text_eq strip lower reserve_all reserve_weight
    scheduled_ms valid_next_available_ms get look_up call_with_rest_backoff attempts_from
    retryable_rest_error
every_clause = tt

weight_of_book : rest_request_weight (codes "info: L2-Book") ≡ 2
unfolding every_clause
weight_of_book = refl

weight_of_order : rest_request_weight (codes "Exchange:order") ≡ 1
unfolding every_clause
weight_of_order = refl

weight_of_fills : rest_request_weight (codes "info:userFills") ≡ 20
unfolding every_clause
weight_of_fills = refl

abbrev request : ℕ → ℕ → Reservation
request now weight = record {
  clock = record { monotonic_ms = now; wall_ms = 1000000 + now };
  weight = weight;
  wait = true;
}

abbrev queue : List Reservation
queue = request 10 20 ∷ request 20 2 ∷ []

late_holder_jumps_queue_example :
    reserve_weight 60000 60
      (request 10 2)
      (written_state 30000 (record { monotonic_ms = 15; wall_ms = 1000015 }))
    ≡ ok (0, written_state 130 (record { monotonic_ms = 10; wall_ms = 1000010 }))
unfolding every_clause
late_holder_jumps_queue_example =
    late_holder_jumps_queue 60000 60 30000 (record { monotonic_ms = 15; wall_ms = 1000015 })
      (request 10 2) (omega arith) refl

abbrev too_many : RestException
too_many = record {
  status_code = none;
  http_code = some 429;
  is_connection = true;
  type_name = codes "urllib.error.HTTPError";
  text = codes "HTTP Error 429";
  retry_after = none;
}

abbrev world : ℕ → Attempt ℕ
world n = if n == 3 then returns 7 else raises too_many 100

third_attempt : call_with_rest_backoff world 5 1000 ≡ (value 7, 1100 ∷ 2100 ∷ [])
unfolding every_clause
third_attempt = refl

call_with_rest_backoff-Ended_example : Ended world 5 1000 1 (value 7, 1100 ∷ 2100 ∷ [])
unfolding every_clause
call_with_rest_backoff-Ended_example = call_with_rest_backoff-Ended world 5 1000

-- ===== src/Throttle/Backoff.antt =====
-- `call_with_rest_backoff` and what it retries (rest_throttle.py). What one attempt meets is an
-- argument: the throttle refuses it, or the call returns or raises. An exception carries what the code
-- reads of it; times are milliseconds.
use hyperliquid_copytrader.Base.{
  ℕ, zero, suc, ◌+◌, ◌-◌, ◌*◌, ◌^◌, Bool, false, not, ◌&&◌, ◌||◌, List, [], ◌∷◌, Option, none, some,
  max, leb, ◌==◌, if◌then◌else◌,
}
use hyperliquid_copytrader.Base.Int.{ℤ, pos_part}
use hyperliquid_copytrader.Base.Text.{Text, codes, lower}
use hyperliquid_copytrader.Throttle.Weights.{starts_with}

-- `status_code` is that of the exception or of its response; `http_code` the code of an `HTTPError`;
-- `is_connection` a URLError, TimeoutError or ConnectionError; `retry_after` the header's milliseconds.
pub record RestException : Type 0 where
  pub status_code : Option ℤ
  pub http_code : Option ℕ
  pub is_connection : Bool
  pub type_name : Text
  pub text : Text
  pub retry_after : Option ℤ

abbrev retryable_code : ℕ → Bool
retryable_code c = c == 408 || c == 429 || c == 500 || c == 502 || c == 503 || c == 504

abbrev retryable_status : Option ℤ → Bool
retryable_status none = false
retryable_status (some c) = retryable_code (pos_part c)

-- `part in text`
abbrev contains : Text → Text → Bool
contains part [] = starts_with part []
contains part (c ∷ s) = starts_with part (c ∷ s) || contains part s

abbrev any_in : List Text → Text → Bool
any_in [] s = false
any_in (p ∷ ps) s = contains p s || any_in ps s

abbrev starts_with_any : List Text → Text → Bool
starts_with_any [] s = false
starts_with_any (p ∷ ps) s = starts_with p s || starts_with_any ps s

abbrev network_type : Text → Bool
network_type name =
    starts_with_any (codes "requests." ∷ codes "httpx." ∷ codes "httpcore." ∷ []) name
    && any_in (codes "timeout" ∷ codes "connection" ∷ codes "network" ∷ []) name

abbrev retryable_text : Text → Bool
retryable_text text =
    any_in
      (codes "too many requests"
        ∷ codes "http error 429"
        ∷ codes "(429,"
        ∷ codes "http error 408"
        ∷ codes "http error 500"
        ∷ codes "http error 502"
        ∷ codes "http error 503"
        ∷ codes "http error 504"
        ∷ [])
      text

abbrev by_kind : Option ℕ → RestException → Bool
by_kind (some code) e = retryable_code code
by_kind none e =
    e.is_connection || network_type (lower e.type_name) || retryable_text (lower e.text)

-- `_retryable_rest_error`
unfoldable pub retryable_rest_error : RestException → Bool
retryable_rest_error e = retryable_status e.status_code || by_kind e.http_code e

abbrev or_zero : Option ℤ → ℕ
or_zero none = 0
or_zero (some n) = pos_part n

-- `_retry_after_ms`
abbrev pub retry_after_ms : RestException → ℕ
retry_after_ms e = or_zero e.retry_after

pub data Attempt (A : Type 0) : Type 0 where
  refused : Attempt A
  returns : A → Attempt A
  raises : RestException → ℕ → Attempt A

pub data Ending (A : Type 0) : Type 0 where
  value : A → Ending A
  throttled : Ending A
  raised : RestException → Ending A
  exhausted : Ending A

module _ {A : Type 0} (world : ℕ → Attempt A) (attempt_limit retry_backoff_ms : ℕ) where
  -- The sleep before the next attempt; the jitter, at most a quarter of the backoff, is the attempt's.
  abbrev pub sleep_ms : ℕ → RestException → ℕ → ℕ
  sleep_ms attempt e jitter =
      max (retry_after_ms e)
        (retry_backoff_ms * 2 ^ (attempt - 1) + (if retry_backoff_ms == 0 then 0 else jitter))

  abbrev pub gives_up : ℕ → RestException → Bool
  gives_up attempt e = leb attempt_limit attempt || not (retryable_rest_error e)

  -- One turn of the loop: what it met, and what the turns after it give.
  abbrev pub after_attempt : ℕ → Ending A × List ℕ → Attempt A → Ending A × List ℕ
  after_attempt attempt rest refused = (throttled, [])
  after_attempt attempt rest (returns a) = (value a, [])
  after_attempt attempt rest (raises e jitter) =
      if gives_up attempt e then (raised e, []) else (rest.0, sleep_ms attempt e jitter ∷ rest.1)

  -- The loop, with the number of attempts that are left; the result comes with the sleeps.
  unfoldable pub attempts_from : ℕ → ℕ → Ending A × List ℕ
  attempts_from zero attempt = (exhausted, [])
  attempts_from (suc left) attempt =
      after_attempt attempt (attempts_from left (attempt + 1)) (world attempt)

-- `call_with_rest_backoff`
unfoldable pub call_with_rest_backoff : {A : Type 0} → (ℕ → Attempt A) → ℕ → ℕ → Ending A × List ℕ
call_with_rest_backoff world attempts backoff_ms =
    attempts_from world (max attempts 1) backoff_ms (max attempts 1) 1

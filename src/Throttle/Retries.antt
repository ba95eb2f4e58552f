-- ===== src/Throttle/Retries.antt =====
-- What `call_with_rest_backoff` does: it ends, in time, with the first attempt that settles.
use hyperliquid_copytrader.Base.{
  ℕ, zero, suc, ◌+◌, ◌-◌, ◌*◌, ◌^◌, ◌≤◌, ◌<◌, ◌≡◌, refl, true, List, [], ◌∷◌, max, arith, length,
  inl, inr, Bool-cases,
}
use hyperliquid_copytrader.Throttle.Backoff.{
  Attempt, refused, returns, raises, Ending, value, throttled, raised, retryable_rest_error,
  sleep_ms, gives_up, after_attempt, attempts_from, call_with_rest_backoff,
}

abbrev pub SleptLonger : ℕ → ℕ → List ℕ → Type 0
SleptLonger backoff attempt [] = Unit
SleptLonger backoff attempt (s ∷ ss) =
    (backoff * 2 ^ (attempt - 1) ≤ s) × SleptLonger backoff (attempt + 1) ss

module _ {A : Type 0} where
  -- The attempt raised an error that is retried.
  abbrev pub Retried : Attempt A → Type 0
  Retried (raises e jitter) = retryable_rest_error e ≡ true
  Retried _ = ⊥

  -- The attempt ends the call so; a retryable error does only as the last attempt.
  abbrev pub Settles : ℕ → ℕ → Attempt A → Ending A → Type 0
  Settles limit attempt refused end = end ≡ throttled
  Settles limit attempt (returns a) end = end ≡ value a
  Settles limit attempt (raises e jitter) end =
      (end ≡ raised e) × (retryable_rest_error e ≡ true → attempt ≡ limit)

  -- From the attempt on `used` attempts were retried, each after its sleep, and the next one settled.
  pub record Ended (world : ℕ → Attempt A) (limit backoff attempt : ℕ) (out : Ending A × List ℕ)
      : Type 0 where
    pub used : ℕ
    pub within : attempt + used ≤ limit
    pub retried : (i : ℕ) → i < used → Retried (world (attempt + i))
    pub settled : Settles limit (attempt + used) (world (attempt + used)) out.0
    pub slept : length out.1 ≡ used
    pub longer : SleptLonger backoff attempt out.1

  module _ (world : ℕ → Attempt A) (limit backoff : ℕ) where
    at_once :
        (attempt : ℕ) (end : Ending A)
        → attempt ≤ limit
        → Settles limit attempt (world attempt) end
        → Ended world limit backoff attempt (end, [])
    at_once attempt end h s =
        let here : attempt + 0 ≡ attempt = omega arith in
        record {
          used = 0;
          within = omega arith;
          retried = λ i l. absurd (omega arith);
          settled = rw here s;
          slept = refl;
          longer = tt;
        }

    next_sleeps :
        (attempt : ℕ) (out : Ending A × List ℕ)
        → Retried (world attempt)
        → (e : Ended world limit backoff (attempt + 1) out) → (i : ℕ) → i < suc e.used
        → Retried (world (attempt + i))
    next_sleeps attempt out r e zero l = let here : attempt + 0 ≡ attempt = omega arith in rw here r
    next_sleeps attempt out r e (suc i) l =
        let shift : attempt + suc i ≡ attempt + 1 + i = omega arith in
        rw shift (e.retried i (omega arith))

    once_more :
        (attempt s : ℕ) (out : Ending A × List ℕ)
        → Retried (world attempt)
        → backoff * 2 ^ (attempt - 1) ≤ s
        → Ended world limit backoff (attempt + 1) out
        → Ended world limit backoff attempt (out.0, s ∷ out.1)
    once_more attempt s out r h e =
        let shift : attempt + suc e.used ≡ attempt + 1 + e.used = omega arith in
        let w = e.within in
        let sl = e.slept in
        record {
          used = suc e.used;
          within = omega arith;
          retried = next_sleeps attempt out r e;
          settled = rw shift e.settled;
          slept = omega arith;
          longer = (h, e.longer);
        }

    -- The three ways in which one attempt can go.
    attempt-Ended :
        (attempt : ℕ) (met : Attempt A) (rest : Ending A × List ℕ)
        → world attempt ≡ met
        → attempt ≤ limit
        → (attempt < limit → Ended world limit backoff (attempt + 1) rest)
        → Ended world limit backoff attempt (after_attempt world limit backoff attempt rest met)
    attempt-Ended attempt refused rest m h ih = at_once attempt throttled h (rw m refl)
    attempt-Ended attempt (returns a) rest m h ih = at_once attempt (value a) h (rw m refl)
    attempt-Ended attempt (raises e jitter) rest m h ih =
        elim (Bool-cases (gives_up world limit backoff attempt e)) [
          | inl last ↦ rw last (at_once attempt (raised e) h (rw m (ground arith)))
          | inr again ↦ rw again (
              once_more attempt (sleep_ms world limit backoff attempt e jitter) rest
                (rw m (ground arith)) (omega arith) (ih (ground arith)))
        ]

    attempts_from-Ended :
        (left attempt : ℕ)
        → 0 < attempt
        → attempt + left ≡ limit + 1
        → 0 < left
        → Ended world limit backoff attempt (attempts_from world limit backoff left attempt)
    unfolding attempts_from
    attempts_from-Ended zero attempt p h l = absurd (omega arith)
    attempts_from-Ended (suc left) attempt p h l =
        attempt-Ended attempt (world attempt) (attempts_from world limit backoff left (attempt + 1))
          refl (omega arith)
          (λ more. attempts_from-Ended left (attempt + 1) (omega arith) (omega arith) (omega arith))

-- A call makes at most as many attempts as it is given (at least one) and ends with the first that
-- settles: a value, a refusal by the throttle, an error that is not retried, or the error of the last
-- attempt. Every attempt before it raised a retryable error, and was followed by one sleep of at
-- least the backoff doubled once for each earlier attempt.
pub call_with_rest_backoff-Ended :
    {A : Type 0} (world : ℕ → Attempt A) (attempts backoff_ms : ℕ)
    → Ended world (max attempts 1) backoff_ms 1 (call_with_rest_backoff world attempts backoff_ms)
unfolding call_with_rest_backoff
call_with_rest_backoff-Ended world attempts backoff_ms =
    attempts_from-Ended world (max attempts 1) backoff_ms (max attempts 1) 1 (omega arith)
      (omega arith) (omega arith)

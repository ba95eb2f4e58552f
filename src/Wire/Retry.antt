-- ===== src/Wire/Retry.antt =====
-- `RestRetrySession` (reconciliation.py): one window of time for the responses of an observation. A
-- monotonic time is a number of its ticks.
use hyperliquid_copytrader.Base.{
  ℕ, ◌+◌, ◌≤◌, ◌≡◌, subst, List, [], ◌∷◌, Option, none, some, leb, arith, All,
}
use hyperliquid_copytrader.Journal.Records.{Result, ok, ◌>>=◌, ◌>>◌, require, >>=-returns}

pub data RetryError : Type 0 where
  expired : RetryError

pub record RestRetrySession : Type 0 where
  pub wait_deadline_mono : ℕ
  pub response_window : ℕ
  pub first_response_mono : Option ℕ
  pub first_response_wall_ms : ℕ
  pub last_response_wall_ms : ℕ

abbrev deadline : Option ℕ → RestRetrySession → ℕ
deadline none s = s.wait_deadline_mono
deadline (some first) s = first + s.response_window

-- `deadline_mono`
abbrev pub deadline_mono : RestRetrySession → ℕ
deadline_mono s = deadline s.first_response_mono s

abbrev first_seen : Option ℕ → ℕ → ℕ → RestRetrySession → RestRetrySession
first_seen none mono wall s = record s {
  first_response_mono = some mono;
  first_response_wall_ms = wall;
}
first_seen (some first) mono wall s = s

-- `observe_response`
unfoldable pub observe_response : ℕ × ℕ → RestRetrySession → Result RetryError RestRetrySession
observe_response (mono, wall) s = do
  require (leb mono (deadline_mono s)) expired
  ok (record (first_seen s.first_response_mono mono wall s) { last_response_wall_ms = wall })

unfoldable pub observe_all : List (ℕ × ℕ) → RestRetrySession → Result RetryError RestRetrySession
observe_all [] s = ok s
observe_all (o ∷ os) s = do t ← observe_response o s; observe_all os t

observed_later :
    (mono wall : ℕ) (s u : RestRetrySession) (first : ℕ)
    → s.first_response_mono ≡ some first
    → observe_response (mono, wall) s ≡ ok u
    → (mono ≤ first + s.response_window)
      × (u.first_response_mono ≡ some first)
      × (u.response_window ≡ s.response_window)
unfolding observe_response
observed_later mono wall s u first f h = ground arith

observed_first :
    (mono wall : ℕ) (s u : RestRetrySession)
    → s.first_response_mono ≡ none
    → observe_response (mono, wall) s ≡ ok u
    → (mono ≤ s.wait_deadline_mono)
      × (u.first_response_mono ≡ some mono)
      × (u.response_window ≡ s.response_window)
unfolding observe_response
observed_first mono wall s u f h = ground arith

later_observed :
    (os : List (ℕ × ℕ)) (s t : RestRetrySession) (first : ℕ)
    → s.first_response_mono ≡ some first
    → observe_all os s ≡ ok t
    → All (λ o. o.0 ≤ first + s.response_window) os
unfolding observe_all
later_observed [] s t first f h = tt
later_observed ((mono, wall) ∷ os) s t first f h =
    let (u, e, k) = >>=-returns (observe_response (mono, wall) s) _ h in
    let (low, same, window) = observed_later mono wall s u first f e in
    (low, subst (λ w. All (λ o. o.0 ≤ first + w) os) window (later_observed os u t first same k))

-- When a fresh session accepts a first response and those after it, the first came by the session's
-- wait deadline and every later one within the window after the first.
pub responses_coherent :
    (mono wall : ℕ) (os : List (ℕ × ℕ)) (s t : RestRetrySession)
    → s.first_response_mono ≡ none
    → observe_all ((mono, wall) ∷ os) s ≡ ok t
    → (mono ≤ s.wait_deadline_mono) × All (λ o. o.0 ≤ mono + s.response_window) os
unfolding observe_all
responses_coherent mono wall os s t f h =
    let (u, e, k) = >>=-returns (observe_response (mono, wall) s) _ h in
    let (low, same, window) = observed_first mono wall s u f e in
    (low, subst (λ w. All (λ o. o.0 ≤ mono + w) os) window (later_observed os u t mono same k))

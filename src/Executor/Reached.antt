-- ===== src/Executor/Reached.antt =====
-- The journal that a method of the lane leaves is the journal after a history of journal calls, so
-- that all that holds of histories holds of the lane.
use hyperliquid_copytrader.Base.{
  ℕ, ◌+◌, ◌≤◌, arith, ◌≡◌, refl, sym, ap, ◌∙◌, Bool, true, false, List, [], ◌∷◌, ◌++◌, Option, none,
  some, if◌then◌else◌,
}
use hyperliquid_copytrader.Base.Int.{pos}
use hyperliquid_copytrader.Base.Text.{Text}
use hyperliquid_copytrader.Journal.States.{ActionState, prepared, unknown, state_eq}
use hyperliquid_copytrader.Journal.Records.{JournalError, Result, ok, err, ActionRecord, finite}
use hyperliquid_copytrader.Journal.Store.{
  Journal, PrepareRequest, reserve_nonce, prepare_action, mark_send_attempted, mark_not_sent,
  mark_unknown, get_action,
}
use hyperliquid_copytrader.Journal.Calls.{
  Call, reserves, prepares, attempts, gives_up, resolves, after, step, run,
}
use hyperliquid_copytrader.Journal.Open.{prepare_count, prepare_calls}
use hyperliquid_copytrader.Wire.Results.{PostResult}
use hyperliquid_copytrader.Executor.Recording.{on_journal}
use hyperliquid_copytrader.Executor.Recording.{
  state_of_outcome, outcome_call, result_call, record_read, record_result,
}

-- From `j` to `k` by calls of which at most `n` prepare an action.
pub record Reached (n : ℕ) (j k : Journal) : Type 0 where
  pub calls : List (ℕ × Call)
  pub ends : k ≡ run calls j
  pub few_prepares : prepare_calls calls ≤ n

prepare_calls-append :
    (cs ds : List (ℕ × Call)) → prepare_calls (cs ++ ds) ≡ prepare_calls cs + prepare_calls ds
prepare_calls-append [] ds = omega arith
prepare_calls-append (c ∷ cs) ds = omega (arith, prepare_calls-append cs ds)

run-append : (cs ds : List (ℕ × Call)) (j : Journal) → run (cs ++ ds) j ≡ run ds (run cs j)
unfolding run
run-append [] ds j = refl
run-append (c ∷ cs) ds j = run-append cs ds (step c j)

pub Reached-refl : (n : ℕ) (j : Journal) → Reached n j j
unfolding run
Reached-refl n j = record { calls = []; ends = refl; few_prepares = omega arith }

pub Reached-trans :
    (m n : ℕ) (i j k : Journal) → Reached m i j → Reached n j k → Reached (m + n) i k
Reached-trans m n i j k g h = record {
  calls = g.calls ++ h.calls;
  ends = h.ends ∙ ap (run h.calls) g.ends ∙ sym (run-append g.calls h.calls i);
  few_prepares =
      omega (arith, prepare_calls-append g.calls h.calls, g.few_prepares, h.few_prepares);
}

pub one_call : (now : ℕ) (c : Call) (j : Journal) → Reached (prepare_count c) j (step (now, c) j)
unfolding run
one_call now c j = record { calls = (now, c) ∷ []; ends = refl; few_prepares = omega arith }

pub on_journal-after {ℓ} :
    {A : Type ℓ} (j : Journal) (res : Result JournalError (A × Journal))
    → (on_journal j res).1 ≡ after j res
on_journal-after j (ok (a, k)) = refl
on_journal-after j (err e) = refl

ok-after {ℓ} :
    {A : Type ℓ} (j : Journal) (res : Result JournalError (A × Journal)) (a : A) (k : Journal)
    → res ≡ ok (a, k)
    → after j res ≡ k
ok-after j res a k h = rw h refl

-- The same of one call of the journal.
pub record Reaches {ℓ} {A : Type ℓ} (n : ℕ) (j : Journal) (res : Result JournalError (A × Journal))
    : Type 0 where
  pub reaches : Reached n j (after j res)

pub reserve_nonce-Reaches :
    (now : ℕ) (follower wallet : Text) (wall_ms : Option ℕ) (j : Journal)
    → Reaches 0 j (reserve_nonce now follower wallet wall_ms j)
unfolding step
reserve_nonce-Reaches now follower wallet wall_ms j = record {
  reaches = one_call now (reserves follower wallet wall_ms) j;
}

pub prepare_action-Reaches :
    (now : ℕ) (q : PrepareRequest) (j : Journal) → Reaches 1 j (prepare_action now q j)
unfolding step
prepare_action-Reaches now q j = record { reaches = one_call now (prepares q) j }

pub attempts-Reaches :
    (now : ℕ) (cloid : Text) (request_id : Option Text) (j : Journal)
    → Reaches 0 j (mark_send_attempted now cloid request_id none j)
unfolding step
attempts-Reaches now cloid request_id j = record {
  reaches = one_call now (attempts cloid request_id none) j;
}

pub not_sent-Reaches :
    (now : ℕ) (cloid : Text) (j : Journal) → Reaches 0 j (mark_not_sent now cloid none j)
unfolding step
not_sent-Reaches now cloid j = record { reaches = one_call now (gives_up cloid none) j }

pub unknown-Reaches :
    (now : ℕ) (cloid : Text) (detail : Option Text) (j : Journal)
    → Reaches 0 j (mark_unknown now cloid detail none j)
unfolding step mark_unknown
unknown-Reaches now cloid detail j = record {
  reaches = one_call now (resolves cloid unknown none detail none) j;
}

outcome_call-Reaches :
    (now : ℕ) (cloid : Text) (result : PostResult) (state : Option ActionState) (j : Journal)
    → Reaches 0 j (outcome_call now cloid result state j)
unfolding step
outcome_call-Reaches now cloid result none j = unknown-Reaches now cloid _ j
outcome_call-Reaches now cloid result (some state) j = record {
  reaches =
      one_call now
        (resolves cloid state (some (finite (pos result.filled_size))) (some result.reason) none) j;
}

pub if-Reaches :
    (j : Journal) (test : Bool) (x y : Result JournalError (ActionRecord × Journal))
    → Reaches 0 j x
    → Reaches 0 j y
    → Reaches 0 j (if test then x else y)
if-Reaches j true x y g h = g
if-Reaches j false x y g h = h

result_call-Reaches :
    (now : ℕ) (cloid : Text) (result : PostResult) (current : ActionRecord) (j : Journal)
    → Reaches 0 j (result_call now cloid result current j)
unfolding result_call
result_call-Reaches now cloid result current j =
    if-Reaches j _ _ _
      (if-Reaches j (state_eq current.state prepared) _ _ (not_sent-Reaches now cloid j)
        (unknown-Reaches now cloid _ j))
      (outcome_call-Reaches now cloid result (state_of_outcome result.outcome) j)

record_read-Reached :
    (now : ℕ) (cloid : Text) (result : PostResult) (j : Journal)
    (read : Result JournalError (Option ActionRecord))
    → Reached 0 j (record_read now cloid result j read).1
record_read-Reached now cloid result j (err e) = Reached-refl 0 j
record_read-Reached now cloid result j (ok none) = Reached-refl 0 j
record_read-Reached now cloid result j (ok (some current)) =
    rw (on_journal-after j (result_call now cloid result current j))
      (result_call-Reaches now cloid result current j).reaches

pub record_result-Reached :
    (now : ℕ) (cloid : Text) (result : PostResult) (j : Journal)
    → Reached 0 j (record_result now cloid result j).1
unfolding record_result
record_result-Reached now cloid result j =
    record_read-Reached now cloid result j (get_action cloid j)

-- ===== src/Executor/Recording.antt =====
-- `_record_result` and `before_send` (continuous_executor.py).
use hyperliquid_copytrader.Base.{
  ℕ, zero, suc, ◌+◌, ◌/◌, ◌%◌, Bool, true, false, [], ◌∷◌, ◌++◌, Option, none, some, ltb,
  if◌then◌else◌,
}
use hyperliquid_copytrader.Base.Int.{pos}
use hyperliquid_copytrader.Base.Text.{Text, codes}
use hyperliquid_copytrader.Journal.States.{ActionState, prepared, state_eq}
use hyperliquid_copytrader.Journal.Records.{
  JournalError, Result, ok, err, ◌>>=◌, ActionRecord, finite,
}
use hyperliquid_copytrader.Journal.Store.{
  Journal, mark_send_attempted, mark_not_sent, mark_unknown, record_outcome, get_action,
}
use hyperliquid_copytrader.Wire.Results.{PostOutcome, PostResult}
use hyperliquid_copytrader.Executor.Orders.{LaneError, action_disappeared}

-- `str` of a natural number
str_digits : ℕ → ℕ → Text
str_digits zero n = []
str_digits (suc fuel) n =
    let higher = str_digits fuel (n / 10) in
    (if ltb n 10 then [] else higher) ++ ((b'0' + n % 10) ∷ [])

abbrev str_ℕ : ℕ → Text
str_ℕ n = str_digits (suc n) n

-- A call of the journal, made by the lane: an exception leaves the journal as it was.
abbrev pub on_journal {ℓ} :
    {A : Type ℓ} → Journal → Result JournalError (A × Journal) → Result LaneError A × Journal
on_journal j (ok (a, k)) = (ok a, k)
on_journal j (err e) = (err (LaneError.journal e), j)

-- The dictionary `mapping` of `_record_result`.
abbrev pub state_of_outcome : PostOutcome → Option ActionState
state_of_outcome PostOutcome.unknown = some ActionState.unknown
state_of_outcome PostOutcome.rejected = some ActionState.rejected
state_of_outcome PostOutcome.filled = some ActionState.filled
state_of_outcome PostOutcome.partially_filled = some ActionState.partially_filled
state_of_outcome PostOutcome.cancelled = some ActionState.canceled
state_of_outcome _ = none

abbrev is_not_sent : PostOutcome → Bool
is_not_sent PostOutcome.not_sent = true
is_not_sent _ = false

abbrev pub outcome_call :
    ℕ
    → Text
    → PostResult
    → Option ActionState
    → Journal
    → Result JournalError (ActionRecord × Journal)
outcome_call now cloid result none j =
    mark_unknown now cloid (some (codes "unexpected:info")) none j
outcome_call now cloid result (some state) j =
    record_outcome now cloid state (some (finite (pos result.filled_size))) (some result.reason)
      none j

-- The call of the journal that `_record_result` makes on the row that it has read.
unfoldable pub result_call :
    ℕ → Text → PostResult → ActionRecord → Journal → Result JournalError (ActionRecord × Journal)
result_call now cloid result current j =
    if is_not_sent result.outcome
    then (if state_eq current.state prepared
        then mark_not_sent now cloid none j
        else mark_unknown now cloid (some (codes "transport_not_sent_after_boundary")) none j)
    else outcome_call now cloid result (state_of_outcome result.outcome) j

abbrev pub record_read :
    ℕ
    → Text
    → PostResult
    → Journal
    → Result JournalError (Option ActionRecord)
    → Result LaneError ActionRecord × Journal
record_read now cloid result j (err e) = (err (LaneError.journal e), j)
record_read now cloid result j (ok none) = (err action_disappeared, j)
record_read now cloid result j (ok (some current)) =
    on_journal j (result_call now cloid result current j)

-- `_record_result`
unfoldable pub record_result :
    ℕ → Text → PostResult → Journal → Result LaneError ActionRecord × Journal
record_result now cloid result j = record_read now cloid result j (get_action cloid j)

-- `before_send`
unfoldable pub before_send : ℕ → Text → ℕ → Journal → Result JournalError Journal
unfolding str_digits
before_send sent_at cloid request_id j = do
  (row, k) ← mark_send_attempted sent_at cloid (some (str_ℕ request_id)) none j
  ok k

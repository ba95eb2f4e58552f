-- ===== src/Journal/Calls.antt =====
-- Histories of the journal: the calls that write, each with the clock at its time.
use hyperliquid_copytrader.Base.{ℕ, List, [], ◌∷◌, Option}
use hyperliquid_copytrader.Base.Text.{Text}
use hyperliquid_copytrader.Journal.States.{ActionState}
use hyperliquid_copytrader.Journal.Records.{JournalError, Result, ok, err, DecimalText}
use hyperliquid_copytrader.Journal.Store.{
  Journal, PrepareRequest, reserve_nonce, prepare_action, mark_send_attempted, mark_not_sent,
  record_outcome, record_cumulative_fill,
}

pub data Call : Type 0 where
  reserves : Text → Text → Option ℕ → Call
  prepares : PrepareRequest → Call
  attempts : Text → Option Text → Option ℕ → Call
  gives_up : Text → Option ℕ → Call
  resolves : Text → ActionState → Option DecimalText → Option Text → Option ℕ → Call
  fills : Text → DecimalText → Option ℕ → Call

-- A call that raises leaves the journal as it was.
abbrev pub after {ℓ} : {A : Type ℓ} → Journal → Result JournalError (A × Journal) → Journal
after j (ok (a, j')) = j'
after j (err e) = j

unfoldable pub step : ℕ × Call → Journal → Journal
step (now, reserves follower wallet wall_ms) j =
    after j (reserve_nonce now follower wallet wall_ms j)
step (now, prepares q) j = after j (prepare_action now q j)
step (now, attempts cloid request_id observed_ms) j =
    after j (mark_send_attempted now cloid request_id observed_ms j)
step (now, gives_up cloid observed_ms) j = after j (mark_not_sent now cloid observed_ms j)
step (now, resolves cloid target filled_size detail observed_ms) j =
    after j (record_outcome now cloid target filled_size detail observed_ms j)
step (now, fills cloid filled_size observed_ms) j =
    after j (record_cumulative_fill now cloid filled_size observed_ms j)

unfoldable pub run : List (ℕ × Call) → Journal → Journal
run [] j = j
run (c ∷ cs) j = run cs (step c j)

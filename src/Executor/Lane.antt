-- ===== src/Executor/Lane.antt =====
-- `ContinuousSignerLane.execute_ioc` (continuous_executor.py). It returns its result with the journal it
-- leaves: what was written before an exception stays. The lane's lock makes the calls serial.
use hyperliquid_copytrader.Base.{ℕ, ◌+◌, Bool, true, false, List, [], ◌∷◌, ◌++◌, Option, none, some}
use hyperliquid_copytrader.Base.Text.{Text, codes, text_eq}
use hyperliquid_copytrader.Journal.Records.{
  JournalError, Result, ok, err, ◌>>=◌, ◌>>◌, require, ActionRecord, object,
}
use hyperliquid_copytrader.Journal.Store.{
  Journal, PrepareRequest, reserve_nonce, prepare_action, recovery_actions, next_attempt_no,
}
use hyperliquid_copytrader.Wire.Results.{PostResult}
use hyperliquid_copytrader.Wire.Post.{Mux, post_action}
use hyperliquid_copytrader.Executor.Orders.{
  LaneError, IocAction, from_journal, build_ioc_action, sign_ioc_action, monitor_only, cancelled,
  hook_failed, unresolved,
}
use hyperliquid_copytrader.Executor.Records.{
  Lane, CloidParts, Platform, Submission, ExecutionAttempt,
}
use hyperliquid_copytrader.Executor.Recording.{record_result, before_send}

module _ (p : Platform) (lane : Lane) where
  abbrev pub lane_recovery : Journal → Result LaneError (List ActionRecord)
  lane_recovery j =
      from_journal (recovery_actions (some lane.follower_account) (some lane.api_wallet_address) j)

  abbrev pub none_unresolved : List ActionRecord → Result LaneError (Unit {0})
  none_unresolved [] = ok tt
  none_unresolved (r ∷ rs) = err (unresolved (r ∷ rs))

  abbrev parts_of : Submission → ℕ → CloidParts
  parts_of q attempt_no = record {
    follower_account = lane.follower_account;
    market = q.action.market;
    desired_id = q.action.desired_id;
    attempt_no = attempt_no;
    side = q.action.side;
    size = q.action.size;
    limit_px = q.limit_px;
    reduce_only = q.action.reduce_only;
  }

  -- `execute_ioc` up to the reservation of the nonce: it only reads.
  unfoldable pub plan_ioc : Submission → Journal → Result LaneError (ℕ × IocAction)
  plan_ioc q j = do
    require lane.signing_enabled monitor_only
    rows ← lane_recovery j
    none_unresolved rows
    attempt_no ← from_journal (
        next_attempt_no lane.follower_account lane.api_wallet_address q.action.desired_id
          q.action.market j)
    ioc ←
        build_ioc_action p.quantum_digits q.asset_id (text_eq q.action.side (codes "buy"))
          q.action.size q.limit_px q.action.reduce_only (p.cloid_hash (parts_of q attempt_no))
    ok (attempt_no, ioc)

  abbrev pub prepare_request : Submission → ℕ → IocAction → ℕ → Text → PrepareRequest
  prepare_request q attempt_no ioc nonce payload = record {
    follower_account = lane.follower_account;
    api_wallet = lane.api_wallet_address;
    desired_id = q.action.desired_id;
    market = q.action.market;
    attempt_no = attempt_no;
    cloid = ioc.cloid;
    nonce = nonce;
    requested_size = q.action.size;
    action_json = object (record { text = p.exact_json ioc; first_order_is_buy = ioc.is_buy });
    signed_payload_json = object (record { text = payload; first_order_is_buy = ioc.is_buy });
    expires_after_ms = q.now_ms + lane.expires_window_ms;
    request_id = codes "pending:" ++ ioc.cloid;
    created_ms = some q.now_ms;
  }

  abbrev recorded : PostResult → Result LaneError ActionRecord → Result LaneError ExecutionAttempt
  recorded result row = do
    action_record ← row
    ok (record { action_record = action_record; result = result })

  abbrev pub record_post :
      Submission
      → IocAction
      → Option PostResult
      → Mux
      → Journal
      → Result LaneError ExecutionAttempt × Mux × Journal
  record_post q ioc none m j = (err cancelled, m, j)
  record_post q ioc (some result) m j =
      let (row, k) = record_result q.recorded_at ioc.cloid result j in (recorded result row, m, k)

  -- `execute_ioc` from `post_action` on.
  unfoldable pub post_and_record :
      Submission → IocAction → Mux → Journal → Result LaneError ExecutionAttempt × Mux × Journal
  post_and_record q ioc m j =
      let (result, m', k) =
        post_action p.shown p.describe (before_send q.sent_at ioc.cloid) ioc.expected_size
          q.required_epoch q.network m j in
      record_post q ioc result m' k

  abbrev pub after_hook :
      Submission
      → IocAction
      → Mux
      → Journal
      → Bool
      → Result LaneError ExecutionAttempt × Mux × Journal
  after_hook q ioc m j true = post_and_record q ioc m j
  after_hook q ioc m j false = (err hook_failed, m, j)

  abbrev pub after_prepare :
      Submission
      → IocAction
      → Mux
      → Journal
      → Result JournalError (ActionRecord × Journal)
      → Result LaneError ExecutionAttempt × Mux × Journal
  after_prepare q ioc m j (err e) = (err (LaneError.journal e), m, j)
  after_prepare q ioc m j (ok (row, k)) = after_hook q ioc m k q.hook_returns

  abbrev pub after_sign :
      Submission
      → ℕ
      → IocAction
      → ℕ
      → Mux
      → Journal
      → Result LaneError Text
      → Result LaneError ExecutionAttempt × Mux × Journal
  after_sign q attempt_no ioc nonce m j (err e) = (err e, m, j)
  after_sign q attempt_no ioc nonce m j (ok payload) =
      after_prepare q ioc m j
        (prepare_action q.reserved_at (prepare_request q attempt_no ioc nonce payload) j)

  abbrev pub after_reserve :
      Submission
      → ℕ
      → IocAction
      → Mux
      → Journal
      → Result JournalError (ℕ × Journal)
      → Result LaneError ExecutionAttempt × Mux × Journal
  after_reserve q attempt_no ioc m j (err e) = (err (LaneError.journal e), m, j)
  after_reserve q attempt_no ioc m j (ok (nonce, k)) =
      after_sign q attempt_no ioc nonce m k
        (sign_ioc_action p.sign_l1_action ioc nonce (q.now_ms + lane.expires_window_ms))

  abbrev pub after_plan :
      Submission
      → Mux
      → Journal
      → Result LaneError (ℕ × IocAction)
      → Result LaneError ExecutionAttempt × Mux × Journal
  after_plan q m j (err e) = (err e, m, j)
  after_plan q m j (ok (attempt_no, ioc)) =
      after_reserve q attempt_no ioc m j (
        reserve_nonce q.reserved_at lane.follower_account lane.api_wallet_address (some q.now_ms) j)

  -- `execute_ioc`
  unfoldable pub execute_ioc :
      Submission → Mux → Journal → Result LaneError ExecutionAttempt × Mux × Journal
  execute_ioc q m j = after_plan q m j (plan_ioc q j)

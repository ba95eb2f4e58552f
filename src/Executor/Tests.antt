-- ===== src/Executor/Tests.antt =====
-- The signer lane on concrete inputs: an IOC buy of 5 quanta and what the network does with it.
use hyperliquid_copytrader.Base.{
  ℕ, ◌+◌, ◌≤◌, ◌≡◌, ◌⊎◌, refl, true, false, [], ◌∷◌, Option, none, some, arith, ◌==◌, inr,
}
use hyperliquid_copytrader.Base.Int.{pos, ◌+ℤ◌}
use hyperliquid_copytrader.Base.Text.{Text, codes, strip, lower, text_eq, text_lt}
use hyperliquid_copytrader.Journal.States.{ActionState, send_attempted}
use hyperliquid_copytrader.Journal.Records.{
  ActionRecord, remaining_size, JsonObject, Result, ok, err, malformed, finite, identity,
  validate_cloid, nonnegative_decimal, normalized_detail, nonempty, positive_int, positive_decimal,
  json_object,
}
use hyperliquid_copytrader.Journal.Changes.{
  send_attempted_change, not_sent_change, outcome_change, observed_change, fill_change,
  validate_cumulative, validate_outcome, validate_fill, cumulative_or_current,
}
use hyperliquid_copytrader.Journal.Store.{
  Journal, empty_journal, find_action, reserve_nonce, prepare_action, mark_send_attempted,
  mark_not_sent, mark_unknown, record_outcome, record_cumulative_fill, recovery_actions,
  reserved_row, prepared_row, insert_prepared, change_action, commit, replace_action,
  require_action, any_collides, last_attempt, nonce_of, upsert_nonce, select_recovery,
  insert_sorted, next_attempt_no, get_action,
}
use hyperliquid_copytrader.Journal.Calls.{reserves, step, run}
use hyperliquid_copytrader.Journal.Invariant.{JournalIsValid, Grows, empty-JournalIsValid}
use hyperliquid_copytrader.Journal.Open.{open_rows, run_adds}
use hyperliquid_copytrader.Wire.Json.{
  Json, null, string, array, object, nil, cons, end, field, look_up, get, squash,
}
use hyperliquid_copytrader.Wire.Results.{PostResult}
use hyperliquid_copytrader.Wire.Classify.{
  item_statuses, nested_statuses, filled_size, filled_price_and_oid, value_under, classify_fill,
  classify_open, classify_size, classify_item, classify_statuses, classify_payload,
  classify_ioc_response, bounded_exchange_error,
}
use hyperliquid_copytrader.Wire.Classified.{Classified, classify_ioc_response-Classified}
use hyperliquid_copytrader.Wire.Post.{
  Mux, Network, answers, fails_before_send, fails_after_send, cancelled_after_send, post,
  post_action,
}
use hyperliquid_copytrader.Wire.Boundary.{Boundary, post-Boundary}
use hyperliquid_copytrader.Wire.Post.{post_info}
use hyperliquid_copytrader.Wire.Status.{
  classify_order_status, visit, visit_fields, visit_items, read_object, normalized_status,
  cumulative_of, terminal_state, open_state, resolve_found, resolve_cumulative,
}
use hyperliquid_copytrader.Wire.Resolved.{Resolution, classify_order_status-Resolution}
use hyperliquid_copytrader.Wire.Retry.{
  RestRetrySession, observe_response, observe_all, responses_coherent,
}
use hyperliquid_copytrader.Executor.Resolve.{resolve_by_cloid, reply_call}
use hyperliquid_copytrader.Journal.Store.{get_owned_action}
use hyperliquid_copytrader.Base.{All}
use hyperliquid_copytrader.Executor.Orders.{
  LaneError, wire_decimal, build_ioc_action, sign_ioc_action,
}
use hyperliquid_copytrader.Executor.Records.{Lane, Platform, Submission, ExecutionAttempt}
use hyperliquid_copytrader.Executor.Recording.{record_result, result_call, before_send}
use hyperliquid_copytrader.Executor.Lane.{plan_ioc, post_and_record, execute_ioc}
use hyperliquid_copytrader.Executor.Recover.{recover_provably_unsent, recover_rows, sum_remaining}
use hyperliquid_copytrader.Executor.Exposure.{entry, exposure, entry-sum_remaining}
use hyperliquid_copytrader.Executor.Reached.{Reached}
use hyperliquid_copytrader.Executor.OneOpen.{execute_ioc-one_open}
use hyperliquid_copytrader.Executor.Settles.{record_result_settles}

abbrev follower : Text
follower = codes "0xf"

abbrev wallet : Text
wallet = codes "0xa"

abbrev name : Text
name = codes "0x00000000000000000000000000000abc"

abbrev platform : Platform
platform = record {
  quantum_digits = 2;
  cloid_hash = λ parts. name;
  exact_json = λ ioc. codes "{}";
  sign_l1_action = λ ioc nonce expires. some (codes "{}");
  shown = λ v. codes "{...}";
  describe = λ e. codes "ActionJournalError";
}

abbrev lane : Lane
lane = record {
  follower_account = follower;
  api_wallet_address = wallet;
  signing_enabled = true;
  expires_window_ms = 5000;
}

-- `{"status": "ok", "response": {"data": {"statuses": [{"filled": {"totalSz": "..."}}]}}}`
abbrev fill_response : ℕ → Json
fill_response n =
    let size : Json = string (codes "...") (record { decimal = finite (pos n); integer = none }) in
    let item = field (codes "filled") (object (field (codes "totalSz") size end)) end in
    let statuses = field (codes "statuses") (array (cons (object item) nil)) end in
    object (
      field (codes "status") (string (codes "ok") (record { decimal = malformed; integer = none }))
        (field (codes "response") (object (field (codes "data") (object statuses) end)) end))

abbrev submission : Network → Submission
submission network = record {
  action = record {
    desired_id = codes "d1";
    market = codes "BTC";
    side = codes "buy";
    size = finite (pos 5);
    reduce_only = false;
  };
  asset_id = 0;
  limit_px = finite (pos 100);
  required_epoch = 1;
  now_ms = 1000;
  reserved_at = 1000;
  sent_at = 1001;
  recorded_at = 1002;
  hook_returns = true;
  network = network;
}

abbrev mux : Mux
mux = record { attached = true; epoch = 1; request_id = 0 }

every_clause : Unit {0}
unfolding run step reserve_nonce reserved_row prepare_action prepared_row insert_prepared
    mark_send_attempted mark_not_sent mark_unknown record_outcome record_cumulative_fill
    change_action commit replace_action require_action find_action any_collides last_attempt
    nonce_of upsert_nonce send_attempted_change not_sent_change outcome_change observed_change
    fill_change validate_cumulative validate_outcome validate_fill cumulative_or_current identity
    nonempty positive_int positive_decimal nonnegative_decimal json_object validate_cloid
    normalized_detail strip lower text_eq text_lt recovery_actions select_recovery insert_sorted
    next_attempt_no get_action look_up get squash item_statuses nested_statuses filled_size
    filled_price_and_oid value_under classify_fill classify_open classify_size classify_item
    classify_statuses classify_payload classify_ioc_response bounded_exchange_error post post_action
    wire_decimal build_ioc_action sign_ioc_action record_result result_call before_send plan_ioc
    post_and_record execute_ioc recover_provably_unsent recover_rows
every_clause = tt

abbrev attempted : Network → Result LaneError ExecutionAttempt × Mux × Journal
attempted network = execute_ioc platform lane (submission network) mux empty_journal

abbrev settled : Result LaneError ExecutionAttempt → Option (ActionState × ℕ)
settled (ok a) = some (a.action_record.state, a.action_record.cumulative_filled_size)
settled (err e) = none

complete_fill : settled (attempted (answers (fill_response 5))).0 ≡ some (ActionState.filled, 5)
unfolding every_clause
complete_fill = refl

partial_fill :
    settled (attempted (answers (fill_response 2))).0 ≡ some (ActionState.partially_filled, 2)
unfolding every_clause
partial_fill = refl

-- More than was sent: reconciled by CLOID later.
excess_fill : settled (attempted (answers (fill_response 6))).0 ≡ some (ActionState.unknown, 0)
unfolding every_clause
excess_fill = refl

write_fails :
    settled (attempted (fails_after_send (codes "TimeoutError:"))).0 ≡ some (ActionState.unknown, 0)
unfolding every_clause
write_fails = refl

never_written :
    settled (attempted (fails_before_send (codes "ValueError:"))).0 ≡ some (ActionState.not_sent, 0)
unfolding every_clause
never_written = refl

-- A task that is cancelled behind the boundary leaves its row SEND_ATTEMPTED.
abbrev sent : Journal
sent = (attempted cancelled_after_send).2

abbrev order_json : JsonObject
order_json = record { text = codes "{}"; first_order_is_buy = true }

abbrev sent_row : ActionRecord
sent_row = record {
  cloid = name;
  follower_account = follower;
  api_wallet = wallet;
  desired_id = codes "d1";
  market = codes "BTC";
  attempt_no = 1;
  nonce = 1000;
  requested_size = 5;
  cumulative_filled_size = 0;
  action_json = order_json;
  signed_payload_json = order_json;
  expires_after_ms = 6000;
  request_id = codes "1";
  state = send_attempted;
  outcome_detail = none;
  created_ms = 1000;
  updated_ms = 1001;
  send_attempted_ms = some 1001;
  terminal_ms = none;
}

sent_actions : sent.actions ≡ sent_row ∷ []
unfolding every_clause
sent_actions = refl

abbrev response : PostResult
response = classify_ioc_response platform.shown 5 (fill_response 2)

classify_ioc_response-Classified_example : Classified 5 (fill_response 2) response
classify_ioc_response-Classified_example =
    classify_ioc_response-Classified platform.shown 5 (fill_response 2)

post-Boundary_example :
    Boundary platform.describe
      (before_send 1001 name)
      1
      empty_journal
      (post platform.describe (before_send 1001 name) 1 (answers null) mux empty_journal).0
      (post platform.describe (before_send 1001 name) 1 (answers null) mux empty_journal).2
    × (mux.epoch ≡ mux.epoch)
    × ((1 == 1) ≡ false
        → (post platform.describe (before_send 1001 name) 1 (answers null) mux empty_journal).2
          ≡ empty_journal)
unfolding every_clause
post-Boundary_example =
    post-Boundary platform.describe (before_send 1001 name) 1 (answers null) mux empty_journal

execute_ioc-one_open_example :
    JournalIsValid sent
    × Grows empty_journal sent
    × ((sent ≡ empty_journal)
        ⊎ ((open_rows follower wallet [] ≡ 0) × (open_rows follower wallet sent.actions ≤ 1)))
unfolding every_clause
execute_ioc-one_open_example =
    execute_ioc-one_open platform lane (submission cancelled_after_send) mux empty_journal follower
      wallet empty-JournalIsValid refl refl

record_result_settles_example :
    (s : ActionRecord) × (k : Journal) × (record_result 1002 name response sent ≡ (ok s, k))
    × (find_action name k.actions ≡ some s)
    × (s.state ≡ ActionState.partially_filled)
    × (s.cumulative_filled_size ≡ 2)
unfolding every_clause
record_result_settles_example =
    record_result_settles 1002 name response sent sent_row (omega arith) refl refl
      (record { no_fill = refl; positive = omega arith; boundary = inr refl; fits = omega arith })

sent-JournalIsValid : JournalIsValid sent
unfolding every_clause
sent-JournalIsValid =
    (execute_ioc-one_open platform lane (submission cancelled_after_send) mux empty_journal follower
      wallet empty-JournalIsValid refl refl).0

run_adds_example :
    open_rows follower wallet (run ((1000, reserves follower wallet none) ∷ []) sent).actions
    ≤ open_rows follower wallet sent.actions + 0
unfolding every_clause
run_adds_example =
    run_adds follower wallet ((1000, reserves follower wallet none) ∷ []) sent sent-JournalIsValid

entry-sum_remaining_example :
    entry (codes "BTC") (sum_remaining (sent_row ∷ []) [])
    ≡ pos 0 +ℤ exposure (codes "BTC") (sent_row ∷ [])
unfolding every_clause entry
entry-sum_remaining_example = entry-sum_remaining (codes "BTC") (sent_row ∷ []) []

open_buy : exposure (codes "BTC") (sent_row ∷ []) ≡ pos 5
unfolding every_clause exposure remaining_size ◌+ℤ◌ entry
open_buy = refl

-- `{"status": "canceled", "filledSz": "..."}`
abbrev canceled_reply : Json
canceled_reply =
    let size : Json =
      string (codes "2") (record { decimal = finite (pos 2); integer = some (pos 2) }) in
    object (
      field (codes "status")
        (string (codes "canceled") (record { decimal = malformed; integer = none }))
        (field (codes "filledSz") size end))

abbrev resolved : Result LaneError ActionRecord × Mux × Journal
resolved = resolve_by_cloid lane 1010 name 1 (answers canceled_reply) mux sent

abbrev state_of : Result LaneError ActionRecord → Option (ActionState × ℕ)
state_of (ok r) = some (r.state, r.cumulative_filled_size)
state_of (err e) = none

canceled_with_fill : state_of resolved.0 ≡ some (ActionState.partially_filled, 2)
unfolding every_clause resolve_by_cloid reply_call get_owned_action post_info classify_order_status
    visit visit_fields visit_items read_object normalized_status cumulative_of terminal_state
    open_state resolve_found resolve_cumulative
canceled_with_fill = refl

classify_order_status-Resolution_example : Resolution 5 (classify_order_status canceled_reply 5)
classify_order_status-Resolution_example =
    classify_order_status-Resolution canceled_reply 5 (omega arith)

abbrev session : RestRetrySession
session = record {
  wait_deadline_mono = 100;
  response_window = 60;
  first_response_mono = none;
  first_response_wall_ms = 0;
  last_response_wall_ms = 0;
}

responses_coherent_example : (90 ≤ 100) × All (λ (o : ℕ × ℕ). o.0 ≤ 90 + 60) ((150, 7) ∷ [])
unfolding observe_all observe_response
responses_coherent_example =
    responses_coherent 90 5 ((150, 7) ∷ []) session
      (record session {
        first_response_mono = some 90;
        first_response_wall_ms = 5;
        last_response_wall_ms = 7;
      })
      refl refl

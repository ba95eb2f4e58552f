-- ===== src/Journal/Tests.antt =====
-- The journal on concrete inputs: one lane, one IOC action, its fills and its end.
use hyperliquid_copytrader.Base.{ℕ, ◌<◌, ◌≡◌, ◌≢◌, refl, true, List, [], ◌∷◌, none, some, not, ◌&&◌}
use mathlib.Core.List.{Perm}
use hyperliquid_copytrader.Base.Int.{pos}
use hyperliquid_copytrader.Base.Text.{Text, codes, strip, lower, text_eq, text_lt}
use hyperliquid_copytrader.Journal.States.{
  prepared, send_attempted, not_sent, unknown, partially_filled,
}
use hyperliquid_copytrader.Journal.Records.{
  ActionRecord, JsonObject, ok, err, finite, object, identity, terminal, validate_cloid,
  nonnegative_decimal, fill_decreases, normalized_detail, nonempty, positive_int, positive_decimal,
  json_object,
}
use hyperliquid_copytrader.Journal.Changes.{
  send_attempted_change, not_sent_change, outcome_change, observed_change, fill_change,
  validate_cumulative, validate_outcome, validate_fill, cumulative_or_current,
}
use hyperliquid_copytrader.Journal.Rows.{Evolves, FillFits}
use hyperliquid_copytrader.Journal.Store.{
  Journal, empty_journal, PrepareRequest, in_lane, find_action, reserve_nonce, prepare_action,
  mark_send_attempted, mark_not_sent, record_outcome, record_cumulative_fill, recovery_actions,
  reserved_row, prepared_row, insert_prepared, change_action, commit, replace_action,
  require_action, any_collides, last_attempt, nonce_of, upsert_nonce, select_recovery,
  insert_sorted,
}
use hyperliquid_copytrader.Journal.Calls.{
  Call, reserves, prepares, attempts, gives_up, resolves, fills, step, run,
}
use hyperliquid_copytrader.Journal.Invariant.{JournalIsValid}
use hyperliquid_copytrader.Journal.History.{run-JournalIsValid, run-Evolves}
use hyperliquid_copytrader.Journal.Keys.{TablesAreValid, run-TablesAreValid}
use hyperliquid_copytrader.Journal.Sends.{send_once, given_up_never_sent}
use hyperliquid_copytrader.Journal.Outcomes.{OutcomeMoves, record_outcome-OutcomeMoves}
use hyperliquid_copytrader.Journal.Fills.{FillMoves, record_cumulative_fill-FillMoves}
use hyperliquid_copytrader.Journal.Nonces.{FreshNonce, reserve_nonce-FreshNonce, nonces_increase}
use hyperliquid_copytrader.Journal.Prepares.{Prepares, prepare_action-Prepares}
use hyperliquid_copytrader.Journal.Recovery.{keep, Ordered, recovery_actions_lem}

abbrev follower : Text
follower = codes "0xf"

abbrev wallet : Text
wallet = codes "0xa"

abbrev name : Text
name = codes "0x00000000000000000000000000000abc"

abbrev order_json : JsonObject
order_json = record { text = codes "{}"; first_order_is_buy = true }

abbrev request : PrepareRequest
request = record {
  follower_account = codes " 0xF ";
  api_wallet = codes "0xA";
  desired_id = codes "d1";
  market = codes "BTC";
  attempt_no = 1;
  cloid = codes "0x00000000000000000000000000000ABC";
  nonce = 1000;
  requested_size = finite (pos 5);
  action_json = object order_json;
  signed_payload_json = object order_json;
  expires_after_ms = 6000;
  request_id = codes "pending";
  created_ms = some 1000;
}

abbrev opening : List (ℕ × Call)
opening = (1000, reserves (codes "0xF") (codes "0xA") (some 1000)) ∷ (1000, prepares request) ∷ []

-- The journal with one prepared action, and with the action sent.
abbrev ready : Journal
ready = run opening empty_journal

abbrev sent : Journal
sent = run ((1001, attempts name none none) ∷ []) ready

abbrev ready_row : ActionRecord
ready_row = record {
  cloid = name;
  follower_account = follower;
  api_wallet = wallet;
  desired_id = codes "d1";
  market = codes "BTC";
  attempt_no = 1;
  nonce = 1000;
  requested_size = 5;
  cumulative_filled_size = 0;
  action_json = order_json;
  signed_payload_json = order_json;
  expires_after_ms = 6000;
  request_id = codes "pending";
  state = prepared;
  outcome_detail = none;
  created_ms = 1000;
  updated_ms = 1000;
  send_attempted_ms = none;
  terminal_ms = none;
}

abbrev sent_row : ActionRecord
sent_row = record ready_row {
  state = send_attempted;
  updated_ms = 1001;
  send_attempted_ms = some 1001;
}

abbrev partial_row : ActionRecord
partial_row = record sent_row { cumulative_filled_size = 2; updated_ms = 1002 }

abbrev settled_row : ActionRecord
settled_row = record sent_row {
  state = partially_filled;
  cumulative_filled_size = 2;
  updated_ms = 1002;
  terminal_ms = some 1002;
}

-- The definitions that a run of the journal goes through.
every_clause : Unit {0}
unfolding run step reserve_nonce reserved_row prepare_action prepared_row insert_prepared
    mark_send_attempted mark_not_sent record_outcome record_cumulative_fill change_action commit
    replace_action require_action find_action any_collides last_attempt nonce_of upsert_nonce
    send_attempted_change not_sent_change outcome_change observed_change fill_change
    validate_cumulative validate_outcome validate_fill cumulative_or_current identity nonempty
    positive_int positive_decimal nonnegative_decimal json_object validate_cloid normalized_detail
    strip lower text_eq text_lt recovery_actions select_recovery insert_sorted keep
every_clause = tt

ready_actions : ready.actions ≡ ready_row ∷ []
unfolding every_clause
ready_actions = refl

sent_actions : sent.actions ≡ sent_row ∷ []
unfolding every_clause
sent_actions = refl

ready-JournalIsValid : JournalIsValid ready
ready-JournalIsValid = run-JournalIsValid opening

sent-JournalIsValid : JournalIsValid sent
unfolding run
sent-JournalIsValid = run-JournalIsValid (
    (1000, reserves (codes "0xF") (codes "0xA") (some 1000))
    ∷ (1000, prepares request)
    ∷ (1001, attempts name none none)
    ∷ [])

run-TablesAreValid_example : TablesAreValid (run opening empty_journal)
run-TablesAreValid_example = run-TablesAreValid opening

run-Evolves_example :
    (s : ActionRecord) × (find_action name
        (run ((1001, attempts name none none) ∷ []) ready).actions
      ≡ some s)
    × Evolves ready_row s
unfolding every_clause
run-Evolves_example =
    run-Evolves ((1001, attempts name none none) ∷ []) ready name ready_row ready-JournalIsValid
      refl

send_once_example :
    mark_send_attempted 1003 name none none
      (run ((1002, fills name (finite (pos 2)) none) ∷ []) sent)
    ≢ ok (sent_row, sent)
unfolding every_clause
send_once_example =
    send_once 1001 1003 name none none none none ((1002, fills name (finite (pos 2)) none) ∷ [])
      ready sent sent_row (sent_row, sent) ready-JournalIsValid refl

given_up_never_sent_example :
    mark_send_attempted 1003 name none none (run [] (step (1001, gives_up name none) ready))
    ≢ ok (sent_row, sent)
unfolding every_clause
given_up_never_sent_example =
    given_up_never_sent 1001 1003 name none none none [] ready
      (step (1001, gives_up name none) ready)
      (record ready_row { state = not_sent; updated_ms = 1001; terminal_ms = some 1001 })
      (sent_row, sent) ready-JournalIsValid refl

record_outcome-OutcomeMoves_example :
    OutcomeMoves partially_filled (some (finite (pos 2))) none sent_row settled_row
    × FillFits partially_filled 2 5
    × (find_action name
          (step
            (1002, resolves name partially_filled (some (finite (pos 2))) none none)
            sent).actions
        ≡ some settled_row)
unfolding every_clause
record_outcome-OutcomeMoves_example =
    record_outcome-OutcomeMoves 1002 name partially_filled (some (finite (pos 2))) none none sent
      (step (1002, resolves name partially_filled (some (finite (pos 2))) none none) sent)
      settled_row name sent_row sent-JournalIsValid refl refl refl

record_cumulative_fill-FillMoves_example :
    FillMoves 2 sent_row partial_row
    × (find_action name (step (1002, fills name (finite (pos 2)) none) sent).actions
        ≡ some partial_row)
unfolding every_clause
record_cumulative_fill-FillMoves_example =
    record_cumulative_fill-FillMoves 1002 name (finite (pos 2)) none sent
      (step (1002, fills name (finite (pos 2)) none) sent) partial_row sent-JournalIsValid refl 2
      name sent_row refl refl refl

-- The clock has gone back to 7; the nonce has not.
reserve_nonce-FreshNonce_example :
    FreshNonce follower wallet 7 ready 1001
      (step (7, reserves (codes "0xF") (codes "0xA") none) ready)
unfolding every_clause
reserve_nonce-FreshNonce_example =
    reserve_nonce-FreshNonce 7 (codes "0xF") (codes "0xA") none ready
      (step (7, reserves (codes "0xF") (codes "0xA") none) ready) 1001 follower wallet
      ready-JournalIsValid refl refl refl

nonces_increase_example : 1000 < 1001
unfolding every_clause
nonces_increase_example =
    nonces_increase 1000 7 (codes "0xF") (codes "0xA") none none ((1000, prepares request) ∷ [])
      empty_journal (step (1000, reserves (codes "0xF") (codes "0xA") none) empty_journal)
      (step (7, reserves (codes "0xF") (codes "0xA") none) ready) 1000 1001 (run-JournalIsValid [])
      refl refl

prepare_action-Prepares_example :
    Prepares ready_row (step (1000, reserves (codes "0xF") (codes "0xA") none) empty_journal) ready
unfolding every_clause
prepare_action-Prepares_example =
    prepare_action-Prepares 1000 request
      (step (1000, reserves (codes "0xF") (codes "0xA") none) empty_journal) ready ready_row refl

recovery_actions_lem_example :
    (rs : List ActionRecord) × (recovery_actions (some (codes "0xF")) (some (codes "0xA")) sent
      ≡ ok rs)
    × Perm rs (keep (λ r. not (terminal r) && in_lane follower wallet r) sent.actions)
    × Ordered rs
unfolding every_clause
recovery_actions_lem_example =
    recovery_actions_lem (codes "0xF") (codes "0xA") follower wallet sent refl refl

-- An outcome cannot take a fill back.
fill_cannot_fall :
    record_outcome 1003 name unknown
      (some (finite (pos 0)))
      none
      none
      (step (1002, fills name (finite (pos 2)) none) sent)
    ≡ err fill_decreases
unfolding every_clause
fill_cannot_fall = refl

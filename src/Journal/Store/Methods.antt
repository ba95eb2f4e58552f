-- ===== src/Journal/Store/Methods.antt =====
-- The methods of `ActionJournal` (action_journal.py) that write. A method is a function of the
-- journal; `_transaction` rolls back on an exception, so an error carries no journal. The clock
-- `_now_ms` is the argument `now`.
use hyperliquid_copytrader.Base.{ℕ, ◌+◌, not, ◌∷◌, Option, none, some, ltb, ◌==◌, get_or}
use hyperliquid_copytrader.Base.Text.{Text}
use hyperliquid_copytrader.Journal.States.{ActionState, prepared, unknown, venue_outcomes}
use hyperliquid_copytrader.Journal.Records.{
  JournalError, Result, ok, ◌>>=◌, ◌>>◌, require, ActionRecord, DecimalText, JsonText, nonempty,
  identity, positive_int, nonnegative_decimal, positive_decimal, json_object, validate_cloid,
  normalized_detail, expires_before_created, stale_nonce, wrong_attempt, already_journaled,
  not_a_venue_outcome,
}
use hyperliquid_copytrader.Journal.Changes.{
  Change, unchanged, updated, send_attempted_change, not_sent_change, outcome_change, fill_change,
}
use hyperliquid_copytrader.Journal.Store.Tables.{
  NonceRow, Journal, nonce_of, upsert_nonce, next_nonce, last_attempt, require_action, any_collides,
  replace_action, is_latest,
}

-- The row that a reservation writes.
unfoldable pub reserved_row : ℕ → Text → Text → ℕ → Journal → NonceRow
reserved_row now follower wallet candidate j = record {
  follower_account = follower;
  api_wallet = wallet;
  last_nonce = next_nonce (nonce_of follower wallet j.signer_nonce) candidate;
  updated_ms = now;
}

unfoldable pub reserve_nonce :
    ℕ → Text → Text → Option ℕ → Journal → Result JournalError (ℕ × Journal)
unfolding reserved_row
reserve_nonce now follower_account api_wallet wall_ms j = do
  follower ← identity follower_account
  wallet ← identity api_wallet
  candidate ← positive_int (get_or wall_ms now)
  let row = reserved_row now follower wallet candidate j
  ok (row.last_nonce, record j { signer_nonce = upsert_nonce row j.signer_nonce })

pub record PrepareRequest : Type 0 where
  pub follower_account : Text
  pub api_wallet : Text
  pub desired_id : Text
  pub market : Text
  pub attempt_no : ℕ
  pub cloid : Text
  pub nonce : ℕ
  pub requested_size : DecimalText
  pub action_json : JsonText
  pub signed_payload_json : JsonText
  pub expires_after_ms : ℕ
  pub request_id : Text
  pub created_ms : Option ℕ

-- The first half of `prepare_action`: the row that its arguments stand for.
unfoldable pub prepared_row : ℕ → PrepareRequest → Result JournalError ActionRecord
prepared_row now q = do
  follower ← identity q.follower_account
  wallet ← identity q.api_wallet
  desired ← nonempty q.desired_id
  canonical_market ← nonempty q.market
  normalized_cloid ← validate_cloid q.cloid
  attempt ← positive_int q.attempt_no
  reserved_nonce ← positive_int q.nonce
  size ← positive_decimal q.requested_size
  exact_action ← json_object q.action_json
  exact_payload ← json_object q.signed_payload_json
  request ← nonempty q.request_id
  created ← positive_int (get_or q.created_ms now)
  expires ← positive_int q.expires_after_ms
  require (ltb created expires) expires_before_created
  ok (record {
    cloid = normalized_cloid;
    follower_account = follower;
    api_wallet = wallet;
    desired_id = desired;
    market = canonical_market;
    attempt_no = attempt;
    nonce = reserved_nonce;
    requested_size = size;
    cumulative_filled_size = 0;
    action_json = exact_action;
    signed_payload_json = exact_payload;
    expires_after_ms = expires;
    request_id = request;
    state = prepared;
    outcome_detail = none;
    created_ms = created;
    updated_ms = created;
    send_attempted_ms = none;
    terminal_ms = none;
  })

-- Its transaction.
unfoldable pub insert_prepared :
    ActionRecord → Journal → Result JournalError (ActionRecord × Journal)
insert_prepared r j = do
  require (is_latest (nonce_of r.follower_account r.api_wallet j.signer_nonce) r.nonce) stale_nonce
  let expected = last_attempt r.follower_account r.api_wallet r.desired_id r.market j.actions + 1
  require (r.attempt_no == expected) (wrong_attempt expected)
  require (not (any_collides r j.actions)) already_journaled
  let j' : Journal = record j { actions = r ∷ j.actions }
  row ← require_action r.cloid j'
  ok (row, j')

unfoldable pub prepare_action :
    ℕ → PrepareRequest → Journal → Result JournalError (ActionRecord × Journal)
prepare_action now q j = do r ← prepared_row now q; insert_prepared r j

-- Write a change and read the row again.
unfoldable pub commit :
    Text → ActionRecord → Change → Journal → Result JournalError (ActionRecord × Journal)
commit cloid current unchanged j = ok (current, j)
commit cloid current (updated new) j = do
  let j' : Journal = record j { actions = replace_action new j.actions }
  row ← require_action cloid j'
  ok (row, j')

-- The transaction that the four methods share: read the row, change it, write it.
unfoldable pub change_action :
    Text
    → (ActionRecord → Result JournalError Change)
    → Journal
    → Result JournalError (ActionRecord × Journal)
change_action cloid f j = do
  current ← require_action cloid j
  change ← f current
  commit cloid current change j

abbrev pub nonempty_option : Option Text → Result JournalError (Option Text)
nonempty_option none = ok none
nonempty_option (some t) = do s ← nonempty t; ok (some s)

unfoldable pub mark_send_attempted :
    ℕ → Text → Option Text → Option ℕ → Journal → Result JournalError (ActionRecord × Journal)
mark_send_attempted now cloid request_id observed_ms j = do
  normalized_cloid ← validate_cloid cloid
  observed ← positive_int (get_or observed_ms now)
  correlated ← nonempty_option request_id
  change_action normalized_cloid (send_attempted_change correlated observed) j

unfoldable pub mark_not_sent :
    ℕ → Text → Option ℕ → Journal → Result JournalError (ActionRecord × Journal)
mark_not_sent now cloid observed_ms j = do
  normalized_cloid ← validate_cloid cloid
  observed ← positive_int (get_or observed_ms now)
  change_action normalized_cloid (not_sent_change observed) j

unfoldable pub record_outcome :
    ℕ
    → Text
    → ActionState
    → Option DecimalText
    → Option Text
    → Option ℕ
    → Journal
    → Result JournalError (ActionRecord × Journal)
record_outcome now cloid target filled_size detail observed_ms j = do
  normalized_cloid ← validate_cloid cloid
  require (venue_outcomes target) (not_a_venue_outcome target)
  observed ← positive_int (get_or observed_ms now)
  change_action normalized_cloid
      (outcome_change target filled_size (normalized_detail detail) observed) j

unfoldable pub mark_unknown :
    ℕ → Text → Option Text → Option ℕ → Journal → Result JournalError (ActionRecord × Journal)
unfolding record_outcome
mark_unknown now cloid detail observed_ms = record_outcome now cloid unknown none detail observed_ms

unfoldable pub record_cumulative_fill :
    ℕ → Text → DecimalText → Option ℕ → Journal → Result JournalError (ActionRecord × Journal)
record_cumulative_fill now cloid filled_size observed_ms j = do
  normalized_cloid ← validate_cloid cloid
  cumulative ← nonnegative_decimal filled_size
  observed ← positive_int (get_or observed_ms now)
  change_action normalized_cloid (fill_change cumulative observed) j

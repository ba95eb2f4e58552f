-- ===== src/Journal/Records.antt =====
-- `ActionRecord`, the errors that the journal raises, and the checks of its arguments
-- (action_journal.py; `validate_cloid` of cloid.py).
--
-- A `Decimal` that is finite is an integer multiple of one quantum 10^-q, with q large enough for
-- every size of the run: sums and comparisons of such decimals are exact. A JSON string is what
-- `json.loads` makes of it; of an object the text and the side of the first order are kept.
use hyperliquid_copytrader.Base.{
  ℕ, zero, suc, Bool, true, false, ◌&&◌, ◌||◌, [], ◌∷◌, Option, none, some, ltb, leb, ◌==◌,
  if◌then◌else◌, length,
}
use hyperliquid_copytrader.Base.Int.{ℤ, pos, sub_ℕ}
pub use hyperliquid_copytrader.Base.Result.{
  Result, ok, err, ◌>>=◌, ◌>>◌, require, require-ok, >>=-returns, ok_injective, Result-cases,
}
use hyperliquid_copytrader.Base.Text.{Text, text_eq, strip, lower}
use hyperliquid_copytrader.Journal.States.{
  ActionState, terminal_states, recovery_states, ambiguous_states, prepared, not_sent,
}

pub data JournalError : Type 0 where
  empty_string not_positive_int bad_decimal bad_json invalid_cloid : JournalError
  expires_before_created stale_nonce already_journaled unknown_action : JournalError
  wrong_attempt : ℕ → JournalError
  send_not_prepared not_sent_not_prepared not_a_venue_outcome : ActionState → JournalError
  fill_decreases fill_exceeds_request fill_of_unsent : JournalError
  invalid_transition : ActionState → ActionState → JournalError
  filled_incomplete partial_not_partial complete_fill_kept : JournalError
  settled_with_fill : ActionState → JournalError
  half_a_lane : JournalError

-- What `Decimal(str(value))` gives.
pub data DecimalText : Type 0 where
  malformed not_finite : DecimalText
  finite : ℤ → DecimalText

pub record JsonObject : Type 0 where
  pub text : Text
  pub first_order_is_buy : Bool

pub data JsonText : Type 0 where
  blank malformed not_object : JsonText
  object : JsonObject → JsonText

pub record ActionRecord : Type 0 where
  pub cloid : Text
  pub follower_account : Text
  pub api_wallet : Text
  pub desired_id : Text
  pub market : Text
  pub attempt_no : ℕ
  pub nonce : ℕ
  pub requested_size : ℕ
  pub cumulative_filled_size : ℕ
  pub action_json : JsonObject
  pub signed_payload_json : JsonObject
  pub expires_after_ms : ℕ
  pub request_id : Text
  pub state : ActionState
  pub outcome_detail : Option Text
  pub created_ms : ℕ
  pub updated_ms : ℕ
  pub send_attempted_ms : Option ℕ
  pub terminal_ms : Option ℕ

abbrev pub terminal : ActionRecord → Bool
terminal r = terminal_states r.state

abbrev pub recovery_required : ActionRecord → Bool
recovery_required r = recovery_states r.state

abbrev pub ambiguous : ActionRecord → Bool
ambiguous r = ambiguous_states r.state

abbrev state_is_unsent : ActionState → Bool
state_is_unsent prepared = true
state_is_unsent not_sent = true
state_is_unsent _ = false

abbrev pub provably_not_sent : ActionRecord → Bool
provably_not_sent r = state_is_unsent r.state

unfoldable pub remaining_size : ActionRecord → ℤ
remaining_size r = sub_ℕ r.requested_size r.cumulative_filled_size

-- `_nonempty`
unfoldable pub nonempty : Text → Result JournalError Text
nonempty value = if text_eq (strip value) [] then err empty_string else ok (strip value)

-- `_identity`
unfoldable pub identity : Text → Result JournalError Text
identity value = do stripped ← nonempty value; ok (lower stripped)

-- `_positive_int`. A negative integer is refused as 0 is; the model's integers stop at 0.
unfoldable pub positive_int : ℕ → Result JournalError ℕ
positive_int zero = err not_positive_int
positive_int (suc n) = ok (suc n)

-- `_nonnegative_decimal`
unfoldable pub nonnegative_decimal : DecimalText → Result JournalError ℕ
nonnegative_decimal (finite (pos n)) = ok n
nonnegative_decimal _ = err bad_decimal

-- `_positive_decimal`
unfoldable pub positive_decimal : DecimalText → Result JournalError ℕ
positive_decimal value = do
  parsed ← nonnegative_decimal value
  require (ltb 0 parsed) bad_decimal
  ok parsed

-- `_json_object`
unfoldable pub json_object : JsonText → Result JournalError JsonObject
json_object (object o) = ok o
json_object _ = err bad_json

is_lower_hex : ℕ → Bool
is_lower_hex c = (leb b'0' c && leb c b'9') || (leb b'a' c && leb c b'f')

all_lower_hex : Text → Bool
all_lower_hex [] = true
all_lower_hex (c ∷ s) = is_lower_hex c && all_lower_hex s

-- CLOID_RE: `0x` and 32 lower-case hexadecimal digits.
matches_cloid : Text → Bool
unfolding all_lower_hex is_lower_hex
matches_cloid (z ∷ x ∷ digits) =
    (z == b'0') && (x == b'x') && (length digits == 32) && all_lower_hex digits
matches_cloid _ = false

-- `validate_cloid`
unfoldable pub validate_cloid : Text → Result JournalError Text
unfolding matches_cloid
validate_cloid cloid = if matches_cloid (lower cloid) then ok (lower cloid) else err invalid_cloid

-- `detail.strip() or None`
unfoldable pub normalized_detail : Option Text → Option Text
normalized_detail none = none
normalized_detail (some detail) = if text_eq (strip detail) [] then none else some (strip detail)

-- ===== src/Executor/Records.antt =====
-- The records of the signer lane (continuous_executor.py) and of what it is called with.
use hyperliquid_copytrader.Base.{ℕ, Bool, false, Option}
use hyperliquid_copytrader.Base.Text.{Text, lower}
use hyperliquid_copytrader.Journal.Records.{JournalError, ActionRecord, DecimalText}
use hyperliquid_copytrader.Wire.Json.{Json}
use hyperliquid_copytrader.Wire.Results.{PostResult}
use hyperliquid_copytrader.Wire.Post.{Network}
use hyperliquid_copytrader.Executor.Orders.{IocAction}

pub record Lane : Type 0 where
  pub follower_account : Text
  pub api_wallet_address : Text
  pub signing_enabled : Bool
  pub expires_window_ms : ℕ

-- `NextAction` (desired_engine.py), in the fields that the lane reads.
pub record NextAction : Type 0 where
  pub desired_id : Text
  pub market : Text
  pub side : Text
  pub size : DecimalText
  pub reduce_only : Bool

-- What `deterministic_cloid` hashes.
pub record CloidParts : Type 0 where
  pub follower_account : Text
  pub market : Text
  pub desired_id : Text
  pub attempt_no : ℕ
  pub side : Text
  pub size : DecimalText
  pub limit_px : DecimalText
  pub reduce_only : Bool

-- What the lane takes from Python's libraries and the venue's: the hash of `deterministic_cloid`, the
-- JSON text of an action, the signature, `str` of a response, the text of an exception.
pub record Platform : Type 0 where
  pub quantum_digits : ℕ
  pub cloid_hash : CloidParts → Text
  pub exact_json : IocAction → Text
  pub sign_l1_action : IocAction → ℕ → ℕ → Option Text
  pub shown : Json → Text
  pub describe : JournalError → Text

-- One call of `execute_ioc`: its arguments, the clock at each place that reads it, the hook
-- `on_prepared` (false when it raises), and what the network does.
pub record Submission : Type 0 where
  pub action : NextAction
  pub asset_id : ℕ
  pub limit_px : DecimalText
  pub required_epoch : ℕ
  pub now_ms : ℕ
  pub reserved_at : ℕ
  pub sent_at : ℕ
  pub recorded_at : ℕ
  pub hook_returns : Bool
  pub network : Network

pub record ExecutionAttempt : Type 0 where
  pub action_record : ActionRecord
  pub result : PostResult

-- `_initialize`
unfoldable pub initialize : Text → Text → ℕ → Bool → Lane
initialize follower_account api_wallet_address expires_window_ms signing_enabled = record {
  follower_account = lower follower_account;
  api_wallet_address = lower api_wallet_address;
  signing_enabled = signing_enabled;
  expires_window_ms = expires_window_ms;
}

-- `monitor_only`
unfoldable pub monitor_only_lane : Text → Text → Lane
unfolding initialize
monitor_only_lane follower_account api_wallet_address =
    initialize follower_account api_wallet_address 5000 false

-- ===== src/Executor/Orders.antt =====
-- `build_ioc_action` and `sign_ioc_action` (ws_actions.py), and the errors that a lane raises.
use hyperliquid_copytrader.Base.{
  ℕ, ◌-◌, ◌%◌, ◌^◌, Bool, ◌&&◌, ◌||◌, List, Option, none, some, ltb, leb, ◌==◌,
}
use hyperliquid_copytrader.Base.Int.{pos}
use hyperliquid_copytrader.Base.Text.{Text}
use hyperliquid_copytrader.Journal.Records.{
  JournalError, Result, ok, err, ◌>>=◌, ◌>>◌, require, ActionRecord, DecimalText, malformed,
  not_finite, finite, validate_cloid,
}
use hyperliquid_copytrader.Wire.Json.{magnitude}

pub data LaneError : Type 0 where
  monitor_only action_disappeared not_owned cancelled signing_failed hook_failed : LaneError
  bad_wire_decimal bad_expiry : LaneError
  unresolved : List ActionRecord → LaneError
  journal : JournalError → LaneError

abbrev pub from_journal {ℓ} : {A : Type ℓ} → Result JournalError A → Result LaneError A
from_journal (ok a) = ok a
from_journal (err e) = err (journal e)

-- A decimal of 10^-q quanta has at most eight decimal places.
abbrev pub fits_wire : ℕ → ℕ → Bool
fits_wire q n = leb q 8 || n % 10 ^ (q - 8) == 0

-- `_wire_decimal`
unfoldable pub wire_decimal : ℕ → DecimalText → Result LaneError ℕ
wire_decimal q (finite (pos n)) = do require (ltb 0 n && fits_wire q n) bad_wire_decimal; ok n
wire_decimal q _ = err bad_wire_decimal

abbrev pub abs_decimal : DecimalText → DecimalText
abs_decimal (finite n) = finite (pos (magnitude n))
abs_decimal not_finite = not_finite
abs_decimal malformed = malformed

-- `IocAction` with the order of its wire form; the envelope's other fields are constants.
pub record IocAction : Type 0 where
  pub cloid : Text
  pub expected_size : ℕ
  pub asset_id : ℕ
  pub is_buy : Bool
  pub limit_px : ℕ
  pub reduce_only : Bool

-- `build_ioc_action`; `q` is the number of decimal places of a quantum.
unfoldable pub build_ioc_action :
    ℕ → ℕ → Bool → DecimalText → DecimalText → Bool → Text → Result LaneError IocAction
build_ioc_action q asset_id is_buy size limit_px reduce_only cloid = do
  normalized ← from_journal (validate_cloid cloid)
  price ← wire_decimal q limit_px
  quantity ← wire_decimal q (abs_decimal size)
  ok (record {
    cloid = normalized;
    expected_size = quantity;
    asset_id = asset_id;
    is_buy = is_buy;
    limit_px = price;
    reduce_only = reduce_only;
  })

abbrev signed_with : Option Text → Result LaneError Text
signed_with none = err signing_failed
signed_with (some payload) = ok payload

-- `sign_ioc_action`: the text of the signed payload. `sign_l1_action` is the venue library's.
unfoldable pub sign_ioc_action :
    (IocAction → ℕ → ℕ → Option Text) → IocAction → ℕ → ℕ → Result LaneError Text
sign_ioc_action sign_l1_action ioc nonce expires_after_ms = do
  require (ltb 0 expires_after_ms) bad_expiry
  signed_with (sign_l1_action ioc nonce expires_after_ms)

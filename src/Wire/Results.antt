-- ===== src/Wire/Results.antt =====
-- `PostOutcome`, `PostResult` and the wire results (ws_actions.py).
use hyperliquid_copytrader.Base.{ℕ, Option, none}
use hyperliquid_copytrader.Base.Text.{Text}
use hyperliquid_copytrader.Wire.Json.{Json}

pub data PostOutcome : Type 0 where
  not_sent unknown rejected filled partially_filled cancelled info : PostOutcome

pub record PostResult : Type 0 where
  pub request_id : ℕ
  pub outcome : PostOutcome
  pub response : Json
  pub reason : Text
  pub filled_size : ℕ
  pub average_fill_price : Option ℕ
  pub order_id : Option ℕ

-- The result with the defaults of the class for what a fill reports.
abbrev pub post_result : ℕ → PostOutcome → Json → Text → PostResult
post_result request_id outcome response reason = record {
  request_id = request_id;
  outcome = outcome;
  response = response;
  reason = reason;
  filled_size = 0;
  average_fill_price = none;
  order_id = none;
}

pub data WireOutcome : Type 0 where
  not_sent response rejected unknown : WireOutcome

pub record WireResult : Type 0 where
  pub request_id : ℕ
  pub outcome : WireOutcome
  pub response : Json
  pub reason : Text

abbrev pub public_outcome : WireOutcome → PostOutcome
public_outcome not_sent = not_sent
public_outcome rejected = rejected
public_outcome _ = unknown

-- `_public_wire_result`
abbrev pub public_wire_result : WireResult → PostResult
public_wire_result wire =
    post_result wire.request_id (public_outcome wire.outcome) wire.response wire.reason

-- ===== src/Wire/Post.antt =====
-- `WsPostMux` (ws_actions.py): the connection epochs, and `_post` with the two calls on top of it.
-- `Network` is what the socket and the event loop do with one request: they are not the program's.
-- The table of pending futures is left out: a response that reaches a request is `answers`.
use hyperliquid_copytrader.Base.{
  ℕ, ◌+◌, Bool, true, false, not, ◌&&◌, ◌||◌, ◌++◌, Option, none, some, ◌==◌, if◌then◌else◌,
}
use hyperliquid_copytrader.Base.Text.{Text, codes}
use hyperliquid_copytrader.Journal.Records.{Result, ok, err}
use hyperliquid_copytrader.Wire.Json.{Json, null, object, get, is_text}
use hyperliquid_copytrader.Wire.Results.{
  PostResult, post_result, WireResult, public_wire_result, not_sent, response, unknown, rejected,
  info,
}
use hyperliquid_copytrader.Wire.Classify.{classify_ioc_response}

pub record Mux : Type 0 where
  pub attached : Bool
  pub epoch : ℕ
  pub request_id : ℕ

pub data MuxError : Type 0 where
  already_attached disconnected : MuxError

-- `attach`
unfoldable pub attach : Mux → Result MuxError Mux
attach m =
    if m.attached
    then err already_attached
    else ok (record m { attached = true; epoch = m.epoch + 1 })

-- `_close_epoch`, which `detach` and the end of `receive_loop` call
unfoldable pub close_epoch : ℕ → Mux → Mux
close_epoch epoch m = if m.attached && m.epoch == epoch then record m { attached = false } else m

-- `capture_epoch`
unfoldable pub capture_epoch : Mux → Result MuxError ℕ
capture_epoch m = if m.attached then ok m.epoch else err disconnected

-- An exception carries `type:text`. A cancelled task ends before or after `before_send`.
pub data Network : Type 0 where
  fails_before_send fails_after_send : Text → Network
  cancelled_before_send cancelled_after_send : Network
  answers : Json → Network

abbrev wire_not_sent : ℕ → Text → WireResult
wire_not_sent id reason = record {
  request_id = id;
  outcome = not_sent;
  response = null;
  reason = reason;
}

abbrev wire_unknown : ℕ → Text → WireResult
wire_unknown id text = record {
  request_id = id;
  outcome = unknown;
  response = null;
  reason = codes "send_outcome_unknown:" ++ text;
}

abbrev wire_response : ℕ → Json → WireResult
wire_response id payload = record {
  request_id = id;
  outcome = response;
  response = payload;
  reason = codes "response";
}

-- What is left of the call behind `before_send`; none is a cancelled task.
abbrev pub after_send : ℕ → Network → Option WireResult
after_send id (answers payload) = some (wire_response id payload)
after_send id (fails_after_send text) = some (wire_unknown id text)
after_send id _ = none

-- `S` is the state that `before_send` changes; `describe` is the text of its exceptions.
module _ {ℓ κ} {S : Type ℓ} {E : Type κ} (describe : E → Text)
    (before_send : ℕ → S → Result E S) where
  abbrev pub at_boundary : ℕ → Network → S → Result E S → Option WireResult × S
  at_boundary id network s (ok s') = (after_send id network, s')
  at_boundary id network s (err e) = (some (wire_not_sent id (codes "not_sent:" ++ describe e)), s)

  abbrev pub on_socket : ℕ → Network → S → Option WireResult × S
  on_socket id (fails_before_send text) s = (some (wire_not_sent id (codes "not_sent:" ++ text)), s)
  on_socket id cancelled_before_send s = (none, s)
  on_socket id network s = at_boundary id network s (before_send id s)

  -- `_post`
  unfoldable pub post : ℕ → Network → Mux → S → Option WireResult × Mux × S
  post required_epoch network m s =
      if not m.attached || not (required_epoch == m.epoch)
      then (some (wire_not_sent 0 (codes "connection_epoch_changed_before_send")), m, s)
      else let id = m.request_id + 1 in
        let (wire, s') = on_socket id network s in (wire, record m { request_id = id }, s')

module _ (shown : Json → Text) where
  abbrev action_result : ℕ → WireResult → PostResult
  action_result expected_size wire = elim wire.outcome [
    | response ↦ record (classify_ioc_response shown expected_size wire.response) {
      request_id = wire.request_id;
    }
    | not_sent ↦ public_wire_result wire
    | rejected ↦ public_wire_result wire
    | unknown ↦ public_wire_result wire
  ]

  abbrev pub action_results : ℕ → Option WireResult → Option PostResult
  action_results expected_size none = none
  action_results expected_size (some wire) = some (action_result expected_size wire)

  -- `post_action`
  unfoldable pub post_action {ℓ κ} :
      {S : Type ℓ} {E : Type κ}
      → (E → Text)
      → (ℕ → S → Result E S)
      → ℕ
      → ℕ
      → Network
      → Mux
      → S
      → Option PostResult × Mux × S
  post_action describe before_send expected_size required_epoch network m s =
      let (wire, m', s') = post describe before_send required_epoch network m s in
      (action_results expected_size wire, m', s')

abbrev is_error : Json → Bool
is_error (object fs) = is_text (codes "error") (get (codes "type") fs)
is_error _ = false

abbrev info_result : WireResult → PostResult
info_result wire = elim wire.outcome [
  | response ↦
      if is_error wire.response
      then post_result wire.request_id rejected wire.response (codes "server_error_response")
      else post_result wire.request_id info wire.response (codes "info_response")
  | not_sent ↦ public_wire_result wire
  | rejected ↦ public_wire_result wire
  | unknown ↦ public_wire_result wire
]

abbrev pub info_results : Option WireResult → Option PostResult
info_results none = none
info_results (some wire) = some (info_result wire)

-- `post_info`, whose payload has a request type; it has no `before_send`.
unfoldable pub post_info : ℕ → Network → Mux → Option PostResult × Mux
post_info required_epoch network m =
    let (wire, m', done) =
      post {E = Unit {0}} (λ e. codes "") (λ id s. ok s) required_epoch network m (tt {0}) in
    (info_results wire, m')

-- ===== src/Journal/Sends.antt =====
-- The send boundary: an action is sent at most once, and never after it was given up.
use hyperliquid_copytrader.Base.{ℕ, ◌≡◌, ◌≢◌, refl, true, List, Option, some, arith, get_or}
use hyperliquid_copytrader.Base.Text.{Text}
use hyperliquid_copytrader.Journal.States.{ActionState, not_sent, prepared, send_attempted}
use hyperliquid_copytrader.Journal.Records.{
  JournalError, >>=-returns, ActionRecord, Result, ok, positive_int, validate_cloid,
}
use hyperliquid_copytrader.Journal.Changes.{Change, send_attempted_change, not_sent_change}
use hyperliquid_copytrader.Journal.Rows.{
  RowIsValid, Evolves, Keeps, was_sent, send_attempted_change-Keeps, not_sent_change-Keeps,
}
use hyperliquid_copytrader.Journal.Store.{
  Journal, find_action, require_action, change_action, nonempty_option, mark_send_attempted,
  mark_not_sent,
}
use hyperliquid_copytrader.Journal.Calls.{Call, run}
use hyperliquid_copytrader.Journal.Invariant.{
  JournalIsValid, Stored, Written, change_action-Stored, change_action-Written,
}
use hyperliquid_copytrader.Journal.History.{run-Sound}

-- What a successful call of the shared transaction has done.
pub record Wrote (cloid : Text) (f : ActionRecord → Result JournalError Change) (j : Journal)
    (s : ActionRecord) (k : Journal) : Type 0 where
  pub before : ActionRecord
  pub found : find_action cloid j.actions ≡ some before
  pub before_valid : RowIsValid before
  pub written : Written (f before) before s
  pub stored : Stored cloid j s k

pub change_action-Wrote :
    (cloid : Text) (f : ActionRecord → Result JournalError Change) (j : Journal) (s : ActionRecord)
    (k : Journal)
    → JournalIsValid j
    → ((r : ActionRecord) → RowIsValid r → Keeps r (f r))
    → change_action cloid f j ≡ ok (s, k)
    → Wrote cloid f j s k
change_action-Wrote cloid f j s k v keeps e =
    let (r, h, w, c) = rw e at (change_action-Written j v cloid f keeps) in
    record {
      before = r;
      found = h;
      before_valid = w;
      written = c;
      stored = rw e at (change_action-Stored j v cloid f keeps);
    }

-- What the arguments of a call were read as.
pub record Opened {A : Type 0} (cloid : Text)
    (call : Text → A → Result JournalError (ActionRecord × Journal)) (q : ActionRecord × Journal)
    : Type 0 where
  pub name : Text
  pub argument : A
  pub name_read : validate_cloid cloid ≡ ok name
  pub ran : call name argument ≡ ok q

mark_send_attempted-Opened :
    (now : ℕ) (cloid : Text) (request_id : Option Text) (observed_ms : Option ℕ) (j : Journal)
    (q : ActionRecord × Journal)
    → mark_send_attempted now cloid request_id observed_ms j ≡ ok q
    → Opened cloid (λ c (a : ℕ × Option Text). change_action c (send_attempted_change a.1 a.0) j) q
unfolding mark_send_attempted
mark_send_attempted-Opened now cloid request_id observed_ms j q h =
    let (c, e, h₁) = >>=-returns (validate_cloid cloid) _ h in
    let (t, _, h₂) = >>=-returns (positive_int (get_or observed_ms now)) _ h₁ in
    let (id, _, h₃) = >>=-returns (nonempty_option request_id) _ h₂ in
    record { name = c; argument = (t, id); name_read = e; ran = h₃ }

mark_not_sent-Opened :
    (now : ℕ) (cloid : Text) (observed_ms : Option ℕ) (j : Journal) (q : ActionRecord × Journal)
    → mark_not_sent now cloid observed_ms j ≡ ok q
    → Opened cloid (λ c (t : ℕ). change_action c (not_sent_change t) j) q
unfolding mark_not_sent
mark_not_sent-Opened now cloid observed_ms j q h =
    let (c, e, h₁) = >>=-returns (validate_cloid cloid) _ h in
    let (t, _, h₂) = >>=-returns (positive_int (get_or observed_ms now)) _ h₁ in
    record { name = c; argument = t; name_read = e; ran = h₂ }

send_attempted_change-sent :
    (id : Option Text) (t : ℕ) (r s : ActionRecord)
    → Written (send_attempted_change id t r) r s
    → (r.state ≡ prepared) × (s.state ≡ send_attempted)
unfolding send_attempted_change
send_attempted_change-sent id t r s w = ground arith

not_sent_change-given_up :
    (t : ℕ) (r s : ActionRecord) → Written (not_sent_change t r) r s → s.state ≡ not_sent
unfolding not_sent_change
not_sent_change-given_up t r s w = ground arith

-- A row that is not PREPARED cannot be sent.
refused_send :
    (j : Journal) (c : Text) (id : Option Text) (t : ℕ) (r : ActionRecord)
    (q : ActionRecord × Journal)
    → find_action c j.actions ≡ some r
    → r.state ≢ prepared
    → change_action c (send_attempted_change id t) j ≢ ok q
unfolding change_action require_action send_attempted_change
refused_send j c id t r q h n e = ground arith

module _ (cs : List (ℕ × Call)) (j : Journal) (v : JournalIsValid j) where
  -- No call of a later history sends the action.
  later_refused :
      (P : ActionState → Type 0)
      (keeps : (r s : ActionRecord) → Evolves r s → P r.state → P s.state)
      (never : (s : ActionState) → P s → s ≢ prepared) (cloid c : Text) (r : ActionRecord)
      → validate_cloid cloid ≡ ok c
      → find_action c j.actions ≡ some r
      → P r.state
      → (now : ℕ) (request_id : Option Text) (observed_ms : Option ℕ) (q : ActionRecord × Journal)
      → mark_send_attempted now cloid request_id observed_ms (run cs j) ≢ ok q
  later_refused P keeps never cloid c r e h p now request_id observed_ms q x =
      let o = mark_send_attempted-Opened now cloid request_id observed_ms (run cs j) q x in
      let (s, f, ev) = (run-Sound cs j v).1.keeps_actions c r h in
      let same : c ≡ o.name = ground (arith, o.name_read) in
      refused_send (run cs j) o.name o.argument.1 o.argument.0 s q (rw (← same) f)
        (never s.state (keeps r s ev p)) o.ran

-- Once `mark_send_attempted` has succeeded for a CLOID in a valid journal, it never succeeds for it
-- again, whatever calls come between: one journaled payload is sent at most once.
pub send_once :
    (now later : ℕ) (cloid : Text) (request_id request_id' : Option Text)
    (observed_ms observed_ms' : Option ℕ) (cs : List (ℕ × Call)) (j k : Journal) (s : ActionRecord)
    (q : ActionRecord × Journal)
    → JournalIsValid j
    → mark_send_attempted now cloid request_id observed_ms j ≡ ok (s, k)
    → mark_send_attempted later cloid request_id' observed_ms' (run cs k) ≢ ok q
send_once now later cloid request_id request_id' observed_ms observed_ms' cs j k s q v e =
    let o = mark_send_attempted-Opened now cloid request_id observed_ms j (s, k) e in
    let w =
      change_action-Wrote o.name _ j s k v (send_attempted_change-Keeps o.argument.1 o.argument.0)
        o.ran in
    let sent = (send_attempted_change-sent o.argument.1 o.argument.0 w.before s w.written).1 in
    later_refused cs k w.stored.0 (λ t. was_sent t ≡ true) (λ r t ev. ev.stays_sent)
      (λ t p n. ground arith) cloid o.name s o.name_read w.stored.2 (rw sent refl) later request_id'
      observed_ms' q

-- Once `mark_not_sent` has given an action of a valid journal up, `mark_send_attempted` never succeeds for it.
pub given_up_never_sent :
    (now later : ℕ) (cloid : Text) (request_id : Option Text) (observed_ms observed_ms' : Option ℕ)
    (cs : List (ℕ × Call)) (j k : Journal) (s : ActionRecord) (q : ActionRecord × Journal)
    → JournalIsValid j
    → mark_not_sent now cloid observed_ms j ≡ ok (s, k)
    → mark_send_attempted later cloid request_id observed_ms' (run cs k) ≢ ok q
given_up_never_sent now later cloid request_id observed_ms observed_ms' cs j k s q v e =
    let o = mark_not_sent-Opened now cloid observed_ms j (s, k) e in
    let w = change_action-Wrote o.name _ j s k v (not_sent_change-Keeps o.argument) o.ran in
    later_refused cs k w.stored.0 (λ t. t ≡ not_sent) (λ r t ev. ev.stays_unsent)
      (λ t p n. ground arith) cloid o.name s o.name_read w.stored.2
      (not_sent_change-given_up o.argument w.before s w.written) later request_id observed_ms' q

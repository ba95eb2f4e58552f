-- ===== src/Executor/Histories.antt =====
-- `execute_ioc` and `recover_provably_unsent` only change the journal by its own calls.
use hyperliquid_copytrader.Base.{
  ℕ, ◌+◌, ◌≡◌, sym, subst, Bool, true, false, List, [], ◌∷◌, Option, none, some, inl, inr,
  Bool-cases,
}
use hyperliquid_copytrader.Base.Text.{Text}
use hyperliquid_copytrader.Journal.States.{prepared, state_eq}
use hyperliquid_copytrader.Journal.Records.{
  JournalError, Result, ok, err, ok_injective, Result-cases, >>=-returns, ActionRecord,
}
use hyperliquid_copytrader.Journal.Store.{
  Journal, prepare_action, mark_send_attempted, mark_not_sent,
}
use hyperliquid_copytrader.Journal.Calls.{after}
use hyperliquid_copytrader.Wire.Results.{PostResult, WireResult}
use hyperliquid_copytrader.Wire.Post.{Mux, post_action, post}
use hyperliquid_copytrader.Wire.Boundary.{Boundary, post-Boundary}
use hyperliquid_copytrader.Executor.Orders.{LaneError, IocAction}
use hyperliquid_copytrader.Executor.Lane.{
  record_post, post_and_record, prepare_request, after_hook, after_prepare, after_sign,
  after_reserve, after_plan, execute_ioc, plan_ioc,
}
use hyperliquid_copytrader.Executor.Recording.{before_send}
use hyperliquid_copytrader.Executor.Records.{Lane, Platform, Submission}
use hyperliquid_copytrader.Executor.Recover.{recover_rows, recover_read, recover_provably_unsent}
use hyperliquid_copytrader.Executor.Reached.{
  Reached, Reached-refl, Reached-trans, Reaches, reserve_nonce-Reaches, prepare_action-Reaches,
  attempts-Reaches, not_sent-Reaches, record_result-Reached,
}

pub Reaches-ok {ℓ} :
    {A : Type ℓ} (n : ℕ) (j : Journal) (res : Result JournalError (A × Journal)) (a : A)
    (k : Journal)
    → res ≡ ok (a, k)
    → Reaches n j res
    → Reached n j k
Reaches-ok n j res a k h r = subst (λ x. Reached n j (after j x)) h r.reaches

before_send-Reached :
    (t : ℕ) (cloid : Text) (id : ℕ) (j k : Journal)
    → before_send t cloid id j ≡ ok k
    → Reached 0 j k
unfolding before_send
before_send-Reached t cloid id j k h =
    let ((row, l), e, f) = >>=-returns (mark_send_attempted t cloid (some _) none j) _ h in
    subst (Reached 0 j) (ok_injective l k f)
      (Reaches-ok 0 j _ row l e (attempts-Reaches t cloid _ j))

Boundary-Reached :
    (describe : JournalError → Text) (t : ℕ) (cloid : Text) (id : ℕ) (j : Journal)
    (wire : Option WireResult) (k : Journal)
    → Boundary describe (before_send t cloid) id j wire k
    → Reached 0 j k
Boundary-Reached describe t cloid id j none k (inl e) =
    subst (Reached 0 j) (sym e) (Reached-refl 0 j)
Boundary-Reached describe t cloid id j none k (inr h) = before_send-Reached t cloid id j k h
Boundary-Reached describe t cloid id j (some wire) k (inl (n, e)) =
    subst (Reached 0 j) (sym e) (Reached-refl 0 j)
Boundary-Reached describe t cloid id j (some wire) k (inr (n, i, h)) =
    before_send-Reached t cloid id j k h

module _ (p : Platform) (lane : Lane) where
  record_post-Reached :
      (q : Submission) (ioc : IocAction) (result : Option PostResult) (m : Mux) (j : Journal)
      → Reached 0 j (record_post p lane q ioc result m j).2
  record_post-Reached q ioc none m j = Reached-refl 0 j
  record_post-Reached q ioc (some result) m j =
      record_result-Reached q.recorded_at ioc.cloid result j

  post_and_record-Reached :
      (q : Submission) (ioc : IocAction) (m : Mux) (j : Journal)
      → Reached 0 j (post_and_record p lane q ioc m j).2
  unfolding post_and_record post_action
  post_and_record-Reached q ioc m j =
      let send = before_send q.sent_at ioc.cloid in
      let (wire, m', k) = post p.describe send q.required_epoch q.network m j in
      Reached-trans 0 0 j k _
        (Boundary-Reached p.describe q.sent_at ioc.cloid (m.request_id + 1) j wire k
          (post-Boundary p.describe send q.required_epoch q.network m j).0)
        (record_post-Reached q ioc _ m' k)

  after_hook-Reached :
      (q : Submission) (ioc : IocAction) (m : Mux) (j : Journal) (hook_returns : Bool)
      → Reached 0 j (after_hook p lane q ioc m j hook_returns).2
  after_hook-Reached q ioc m j true = post_and_record-Reached q ioc m j
  after_hook-Reached q ioc m j false = Reached-refl 0 j

  after_prepare-Reached :
      (q : Submission) (ioc : IocAction) (m : Mux) (j : Journal)
      (res : Result JournalError (ActionRecord × Journal))
      → Reaches 1 j res
      → Reached 1 j (after_prepare p lane q ioc m j res).2
  after_prepare-Reached q ioc m j (err e) r = Reached-refl 1 j
  after_prepare-Reached q ioc m j (ok (row, k)) r =
      Reached-trans 1 0 j k _ r.reaches (after_hook-Reached q ioc m k q.hook_returns)

  after_sign-Reached :
      (q : Submission) (attempt_no : ℕ) (ioc : IocAction) (nonce : ℕ) (m : Mux) (j : Journal)
      (payload : Result LaneError Text)
      → Reached 1 j (after_sign p lane q attempt_no ioc nonce m j payload).2
  after_sign-Reached q attempt_no ioc nonce m j (err e) = Reached-refl 1 j
  after_sign-Reached q attempt_no ioc nonce m j (ok payload) =
      let request = prepare_request p lane q attempt_no ioc nonce payload in
      after_prepare-Reached q ioc m j (prepare_action q.reserved_at request j)
        (prepare_action-Reaches q.reserved_at request j)

  after_reserve-Reached :
      (q : Submission) (attempt_no : ℕ) (ioc : IocAction) (m : Mux) (j : Journal)
      (res : Result JournalError (ℕ × Journal))
      → Reaches 0 j res
      → Reached 1 j (after_reserve p lane q attempt_no ioc m j res).2
  after_reserve-Reached q attempt_no ioc m j (err e) r = Reached-refl 1 j
  after_reserve-Reached q attempt_no ioc m j (ok (nonce, k)) r =
      Reached-trans 0 1 j k _ r.reaches (after_sign-Reached q attempt_no ioc nonce m k _)

  after_plan-Reached :
      (q : Submission) (m : Mux) (j : Journal) (plan : Result LaneError (ℕ × IocAction))
      → Reached 1 j (after_plan p lane q m j plan).2
  after_plan-Reached q m j (err e) = Reached-refl 1 j
  after_plan-Reached q m j (ok (attempt_no, ioc)) = after_reserve-Reached q attempt_no ioc m j _ (
      reserve_nonce-Reaches q.reserved_at lane.follower_account lane.api_wallet_address
        (some q.now_ms) j)

  pub execute_ioc-Reached :
      (q : Submission) (m : Mux) (j : Journal) → Reached 1 j (execute_ioc p lane q m j).2
  unfolding execute_ioc
  execute_ioc-Reached q m j = after_plan-Reached q m j (plan_ioc p lane q j)

recover_rows-Reached :
    (now : ℕ) (rs : List ActionRecord) (j : Journal) → Reached 0 j (recover_rows now rs j).1
unfolding recover_rows
recover_rows-Reached now [] j = Reached-refl 0 j
recover_rows-Reached now (r ∷ rs) j = elim (Bool-cases (state_eq r.state prepared)) [
  | inr sent ↦ rw (sent, recover_rows) (recover_rows-Reached now rs j)
  | inl unsent ↦ elim (Result-cases (mark_not_sent now r.cloid none j)) [
    | inl (e, failed) ↦ rw (unsent, failed, recover_rows) (Reached-refl 0 j)
    | inr ((s, k), done) ↦
        rw (unsent, done, recover_rows)
          (Reached-trans 0 0 j k _ (Reaches-ok 0 j _ s k done (not_sent-Reaches now r.cloid j))
            (recover_rows-Reached now rs k))
  ]
]

recover_read-Reached :
    (now : ℕ) (j : Journal) (read : Result JournalError (List ActionRecord))
    → Reached 0 j (recover_read now j read).1
recover_read-Reached now j (err e) = Reached-refl 0 j
recover_read-Reached now j (ok rows) = recover_rows-Reached now rows j

-- `recover_provably_unsent` leaves the journal after a history of journal calls that prepare
-- nothing.
pub recover_provably_unsent-Reached :
    (lane : Lane) (now : ℕ) (j : Journal) → Reached 0 j (recover_provably_unsent lane now j).1
unfolding recover_provably_unsent
recover_provably_unsent-Reached lane now j = recover_read-Reached now j _

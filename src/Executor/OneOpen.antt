-- ===== src/Executor/OneOpen.antt =====
-- A signer lane has at most one open action.
use hyperliquid_copytrader.Base.{
  ℕ, ◌+◌, ◌≤◌, ◌≡◌, refl, List, [], ◌∷◌, some, arith, inl, inr, Bool-cases, subst, sym, ◌∙◌, ◌⊎◌,
}
use hyperliquid_copytrader.Base.Text.{Text}
use hyperliquid_copytrader.Journal.Records.{
  JournalError, ActionRecord, Result, ok, err, >>=-returns, Result-cases, ok_injective, identity,
  require,
}
use hyperliquid_copytrader.Journal.Store.{
  Journal, in_lane, insert_sorted, select_recovery, recovery_actions,
}
use hyperliquid_copytrader.Journal.Open.{row_is_open, open_rows, run_adds}
use hyperliquid_copytrader.Journal.Invariant.{JournalIsValid, Grows}
use hyperliquid_copytrader.Journal.History.{run-Sound}
use hyperliquid_copytrader.Wire.Post.{Mux}
use hyperliquid_copytrader.Executor.Orders.{IocAction, monitor_only, from_journal}
use hyperliquid_copytrader.Executor.Lane.{lane_recovery, none_unresolved, plan_ioc, execute_ioc}
use hyperliquid_copytrader.Executor.Records.{monitor_only_lane, Lane, Platform, Submission}
use hyperliquid_copytrader.Executor.Reached.{Reached}
use hyperliquid_copytrader.Executor.Histories.{execute_ioc-Reached}

insert_sorted-nonempty : (r : ActionRecord) (rs : List ActionRecord) → insert_sorted r rs ≡ [] → ⊥
unfolding insert_sorted
insert_sorted-nonempty r [] h = cc
insert_sorted-nonempty r (s ∷ rs) h = ground arith

none_open :
    (follower wallet : Text) (rs : List ActionRecord)
    → select_recovery (in_lane follower wallet) rs ≡ []
    → open_rows follower wallet rs ≡ 0
unfolding select_recovery
none_open follower wallet [] h = refl
none_open follower wallet (r ∷ rs) h = elim (Bool-cases (row_is_open follower wallet r)) [
  | inl hit ↦ absurd (insert_sorted-nonempty r _ (rw hit at h))
  | inr miss ↦ rw miss (omega (arith, none_open follower wallet rs (rw miss at h)))
]

Reached-Sound :
    (n : ℕ) (j k : Journal) → Reached n j k → JournalIsValid j → JournalIsValid k × Grows j k
Reached-Sound n j k r v =
    subst (λ x. JournalIsValid x × Grows j x) (sym r.ends) (run-Sound r.calls j v)

Reached-adds :
    (follower wallet : Text) (n : ℕ) (j k : Journal)
    → Reached n j k
    → JournalIsValid j
    → open_rows follower wallet k.actions ≤ open_rows follower wallet j.actions + n
Reached-adds follower wallet n j k r v =
    let few = r.few_prepares in rw r.ends (omega (arith, run_adds follower wallet r.calls j v))

-- A plan that is made has found the lane named and free.
record Free (lane : Lane) (j : Journal) : Type 0 where
  follower : Text
  wallet : Text
  follower_read : identity lane.follower_account ≡ ok follower
  wallet_read : identity lane.api_wallet_address ≡ ok wallet
  no_open_row : open_rows follower wallet j.actions ≡ 0

from_journal-ok {ℓ} :
    {A : Type ℓ} (m : Result JournalError A) (a : A) → from_journal m ≡ ok a → m ≡ ok a
from_journal-ok (ok b) a h = rw (ok_injective b a h) refl
from_journal-ok (err e) a h = absurd (cc)

none_unresolved-empty :
    (p : Platform) (lane : Lane) (rs : List ActionRecord)
    → none_unresolved p lane rs ≡ ok tt
    → rs ≡ []
none_unresolved-empty p lane [] h = refl
none_unresolved-empty p lane (r ∷ rs) h = absurd (cc)

recovery-Free :
    (lane : Lane) (j : Journal)
    → recovery_actions (some lane.follower_account) (some lane.api_wallet_address) j ≡ ok []
    → Free lane j
unfolding recovery_actions
recovery-Free lane j h =
    let (f, ef, h1) = >>=-returns (identity lane.follower_account) _ h in
    let (w, ew, h2) = >>=-returns (identity lane.api_wallet_address) _ h1 in
    record {
      follower = f;
      wallet = w;
      follower_read = ef;
      wallet_read = ew;
      no_open_row =
          none_open f w j.actions (ok_injective (select_recovery (in_lane f w) j.actions) [] h2);
    }

plan_ioc-Free :
    (p : Platform) (lane : Lane) (q : Submission) (j : Journal) (plan : ℕ × IocAction)
    → plan_ioc p lane q j ≡ ok plan
    → Free lane j
unfolding plan_ioc
plan_ioc-Free p lane q j plan h =
    let (a, ea, h1) = >>=-returns (require lane.signing_enabled monitor_only) _ h in
    let (rows, er, h2) = >>=-returns (lane_recovery p lane j) _ h1 in
    let (b, eb, h3) = >>=-returns (none_unresolved p lane rows) _ h2 in
    let empty = none_unresolved-empty p lane rows eb in
    recovery-Free lane j
      (from_journal-ok _ [] (subst (λ x. lane_recovery p lane j ≡ ok x) empty er))

-- On a valid journal, however a call of `execute_ioc` ends, the journal stays valid and has only
-- grown; and either nothing was written, or the lane had no open action before the call and has at
-- most one after it.
pub execute_ioc-one_open :
    (p : Platform) (lane : Lane) (q : Submission) (m : Mux) (j : Journal) (follower wallet : Text)
    → JournalIsValid j
    → identity lane.follower_account ≡ ok follower
    → identity lane.api_wallet_address ≡ ok wallet
    → let k = (execute_ioc p lane q m j).2 in
      JournalIsValid k
      × Grows j k
      × ((k ≡ j)
          ⊎ ((open_rows follower wallet j.actions ≡ 0) × (open_rows follower wallet k.actions ≤ 1)))
unfolding execute_ioc
execute_ioc-one_open p lane q m j follower wallet v ef ew =
    let r = execute_ioc-Reached p lane q m j in
    let (w, g) = Reached-Sound 1 j _ r v in
    (
      w,
      g,
      elim (Result-cases (plan_ioc p lane q j)) [
        | inl (e, refused) ↦ inl (rw (refused, execute_ioc) refl)
        | inr (plan, made) ↦
            let free = plan_ioc-Free p lane q j plan made in
            let same = ok_injective free.follower follower (sym free.follower_read ∙ ef) in
            let same' = ok_injective free.wallet wallet (sym free.wallet_read ∙ ew) in
            let idle : open_rows follower wallet j.actions ≡ 0 =
              rw (← same, ← same') free.no_open_row in
            inr (idle, omega (arith, Reached-adds follower wallet 1 j _ r v))
      ],
    )

-- A lane that only monitors raises on every `execute_ioc` and writes nothing.
pub monitor_only_lane-writes_nothing :
    (p : Platform) (follower_account api_wallet_address : Text) (q : Submission) (m : Mux)
    (j : Journal)
    → execute_ioc p (monitor_only_lane follower_account api_wallet_address) q m j
      ≡ (err monitor_only, m, j)
unfolding execute_ioc plan_ioc monitor_only_lane
monitor_only_lane-writes_nothing p follower_account api_wallet_address q m j = refl

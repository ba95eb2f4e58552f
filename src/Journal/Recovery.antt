-- ===== src/Journal/Recovery.antt =====
-- `recovery_actions`: which rows it returns, and in what order.
use hyperliquid_copytrader.Base.{
  ◌≡◌, refl, ap, Bool, true, false, ◌&&◌, List, [], ◌∷◌, some, arith, if◌then◌else◌, All,
  All-map_imp, inl, inr, Bool-cases, not,
}
use mathlib.Core.List.{Perm}
use mathlib.Core.List.Perm
use hyperliquid_copytrader.Base.Text.{Text, text_lt_asym, text_le_trans}
use hyperliquid_copytrader.Journal.Records.{ActionRecord, ok, recovery_required, terminal, identity}
use hyperliquid_copytrader.Journal.Store.{
  Journal, in_lane, created_before, insert_sorted, select_recovery, recovery_actions,
}

-- The rows that pass a test, in the order of the table.
unfoldable pub keep : (ActionRecord → Bool) → List ActionRecord → List ActionRecord
keep p [] = []
keep p (r ∷ rs) = if p r then r ∷ keep p rs else keep p rs

abbrev pub Ordered : List ActionRecord → Type 0
Ordered [] = Unit
Ordered (r ∷ rs) = All (λ s. created_before r s ≡ true) rs × Ordered rs

created_before_trans :
    (a b c : ActionRecord)
    → created_before a b ≡ true
    → created_before b c ≡ true
    → created_before a c ≡ true
created_before_trans a b c h k = ground (arith, text_le_trans a.cloid b.cloid c.cloid)

created_before_total : (a b : ActionRecord) → created_before a b ≡ false → created_before b a ≡ true
created_before_total a b h = ground (arith, text_lt_asym b.cloid a.cloid)

insert_sorted-perm :
    (r : ActionRecord) (ss : List ActionRecord) → Perm (insert_sorted r ss) (r ∷ ss)
unfolding insert_sorted
insert_sorted-perm r [] = Perm.refl (r ∷ [])
insert_sorted-perm r (s ∷ ss) = elim (Bool-cases (created_before r s)) [
  | inl first ↦ rw first (Perm.refl (r ∷ s ∷ ss))
  | inr later ↦ rw later (Perm.trans (Perm.cons s (insert_sorted-perm r ss)) (Perm.swap r s ss))
]

All-insert_sorted {κ} :
    (P : ActionRecord → Type κ) (r : ActionRecord) (ss : List ActionRecord)
    → P r
    → All P ss
    → All P (insert_sorted r ss)
unfolding insert_sorted
All-insert_sorted P r [] p h = (p, tt)
All-insert_sorted P r (s ∷ ss) p h = ground (arith, All-insert_sorted P r ss p h.1)

insert_sorted-Ordered :
    (r : ActionRecord) (ss : List ActionRecord) → Ordered ss → Ordered (insert_sorted r ss)
unfolding insert_sorted
insert_sorted-Ordered r [] h = (tt, tt)
insert_sorted-Ordered r (s ∷ ss) h = elim (Bool-cases (created_before r s)) [
  | inl first ↦
      rw first ((first, All-map_imp (λ x k. created_before_trans r s x first k) ss h.0), h)
  | inr later ↦ rw later (
    All-insert_sorted (λ x. created_before s x ≡ true) r ss (created_before_total r s later) h.0,
    insert_sorted-Ordered r ss h.1,
  )
]

select_recovery-perm :
    (lane : ActionRecord → Bool) (rs : List ActionRecord)
    → Perm (select_recovery lane rs) (keep (λ r. recovery_required r && lane r) rs)
unfolding select_recovery keep
select_recovery-perm lane [] = Perm.refl []
select_recovery-perm lane (r ∷ rs) = elim (Bool-cases (recovery_required r && lane r)) [
  | inl hit ↦ rw hit (
      Perm.trans (insert_sorted-perm r (select_recovery lane rs))
        (Perm.cons r (select_recovery-perm lane rs)))
  | inr miss ↦ rw miss (select_recovery-perm lane rs)
]

select_recovery-Ordered :
    (lane : ActionRecord → Bool) (rs : List ActionRecord) → Ordered (select_recovery lane rs)
unfolding select_recovery
select_recovery-Ordered lane [] = tt
select_recovery-Ordered lane (r ∷ rs) =
    ground
      (arith, select_recovery-Ordered lane rs, insert_sorted-Ordered r (select_recovery lane rs))

-- A state needs recovery exactly if it is not terminal.
recovery-iff-open : (r : ActionRecord) → recovery_required r ≡ not (terminal r)
recovery-iff-open r = ground arith

keep_ext :
    (p q : ActionRecord → Bool) (rs : List ActionRecord)
    → ((r : ActionRecord) → p r ≡ q r)
    → keep p rs ≡ keep q rs
unfolding keep
keep_ext p q [] h = refl
keep_ext p q (r ∷ rs) h = rw (h r, keep_ext p q rs h)

-- For a lane whose two names are not blank `recovery_actions` returns, each once, exactly the rows of the lane whose state is
-- not terminal, ordered by creation time and then CLOID.
pub recovery_actions_lem :
    (follower_account api_wallet follower wallet : Text) (j : Journal)
    → identity follower_account ≡ ok follower
    → identity api_wallet ≡ ok wallet
    → (rs : List ActionRecord) × (recovery_actions (some follower_account) (some api_wallet) j
        ≡ ok rs)
      × Perm rs (keep (λ r. not (terminal r) && in_lane follower wallet r) j.actions)
      × Ordered rs
unfolding recovery_actions
recovery_actions_lem follower_account api_wallet follower wallet j ef ew =
    let lane = in_lane follower wallet in
    (
      select_recovery lane j.actions,
      rw (ef, ew) refl,
      rw
          (← keep_ext (λ r. recovery_required r && lane r) (λ r. not (terminal r) && lane r)
            j.actions (λ r. ap (λ b. b && lane r) (recovery-iff-open r)))
          (select_recovery-perm lane j.actions),
      select_recovery-Ordered lane j.actions,
    )

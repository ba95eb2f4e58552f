-- ===== src/Account/Remembered.antt =====
-- What one frame does to the memory of fills.
use hyperliquid_copytrader.Base.{
  ℕ, suc, ◌+◌, ◌*◌, ◌≤◌, ◌<◌, false, List, [], ◌∷◌, some, length, ◌≡◌, inl, inr, Bool-cases,
  Option-cases, arith,
}
use hyperliquid_copytrader.Journal.Records.{ok, >>=-returns, ok_injective}
use hyperliquid_copytrader.Account.Records.{
  Identity, FillRecord, Fingerprint, identity, identity_eq, fill_fingerprint, fingerprint_eq,
}
use hyperliquid_copytrader.Account.Memory.{Entry, recall, forget, learn, remember, new_records}
use hyperliquid_copytrader.Account.Recency.{
  Holds, identity_eq-same, Holds-recall, Holds-weaken, Holds-append, Holds-forget, Holds-touch_all,
  Holds-trim,
}

-- None of the records is the fill `i`.
abbrev pub Without : Identity → List FillRecord → Type 0
Without i [] = Unit
Without i (r ∷ rs) = (identity_eq (identity r) i ≡ false) × Without i rs

-- What a frame reports as new does not hold a fill that the memory knows.
pub new_records-Without :
    (es : List Entry) (rs new : List FillRecord) (i : Identity) (f : Fingerprint)
    → recall i es ≡ some f
    → new_records es rs ≡ ok new
    → Without i new
unfolding new_records
new_records-Without es [] new i f known h = rw (← ok_injective [] new h) tt
new_records-Without es (r ∷ rs) new i f known h =
    let (rest, e, h₁) = >>=-returns (new_records es rs) _ h in
    let ih = new_records-Without es rs rest i f known e in
    elim (Option-cases (recall (identity r) es)) [
      | inl fresh ↦
          let is = ok_injective _ new (rw fresh at h₁) in
          let other : identity_eq (identity r) i ≡ false =
            elim (Bool-cases (identity_eq (identity r) i)) [
              | inl same ↦ absurd (let t = identity_eq-same (identity r) i same in cc)
              | inr different ↦ different
            ] in
          rw (← is) (other, ih)
      | inr (g, old) ↦ elim (Bool-cases (fingerprint_eq g (fill_fingerprint r))) [
        | inl same ↦ rw (← ok_injective _ new (rw (old, same) at h₁)) ih
        | inr other ↦ absurd (let t = (rw (old, other) at h₁) in ground arith)
      ]
    ]

pub new_records-shorter :
    (es : List Entry) (rs new : List FillRecord)
    → new_records es rs ≡ ok new
    → length new ≤ length rs
unfolding new_records
new_records-shorter es [] new h = rw (← ok_injective [] new h) (omega arith)
new_records-shorter es (r ∷ rs) new h =
    let (rest, e, h₁) = >>=-returns (new_records es rs) _ h in
    let ih = new_records-shorter es rs rest e in
    elim (Option-cases (recall (identity r) es)) [
      | inl fresh ↦ rw (← ok_injective _ new (rw fresh at h₁)) (omega arith)
      | inr (g, old) ↦ elim (Bool-cases (fingerprint_eq g (fill_fingerprint r))) [
        | inl same ↦ rw (← ok_injective _ new (rw (old, same) at h₁)) (omega arith)
        | inr other ↦ absurd (let t = (rw (old, other) at h₁) in ground arith)
      ]
    ]

Holds-learn :
    (k : ℕ) (i : Identity) (f : Fingerprint) (new : List FillRecord) (es : List Entry)
    → Without i new
    → Holds k i f es
    → Holds (k + length new) i f (learn new es)
unfolding learn
Holds-learn k i f [] es w h = Holds-weaken k (k + 0) i f es (omega arith) h
Holds-learn k i f (r ∷ rs) es (other, w) h =
    let j = identity r in
    let next =
      Holds-append k i f (forget j es) (j, fill_fingerprint r) (Holds-forget k i j f es other h) in
    Holds-weaken (suc k + length rs) (k + suc (length rs)) i f _ (omega arith)
      (Holds-learn (suc k) i f rs _ w next)

-- A fill that the memory holds is still held after a frame, with at most two newer entries more
-- for each of the frame's records.
pub Holds-remember :
    (k capacity : ℕ) (i : Identity) (f : Fingerprint) (new unique : List FillRecord)
    (es : List Entry)
    → new_records es unique ≡ ok new
    → k + 2 * length unique < capacity
    → Holds k i f es
    → Holds (k + 2 * length unique) i f (remember capacity new unique es)
unfolding remember
Holds-remember k capacity i f new unique es e room h =
    let w = new_records-Without es unique new i f (Holds-recall k i f es h) e in
    let short = new_records-shorter es unique new e in
    let learned = Holds-learn k i f new es w h in
    let touched = Holds-touch_all (k + length new) i f unique (learn new es) learned in
    Holds-trim (k + 2 * length unique) capacity i f _ room (
      Holds-weaken (k + length new + length unique) (k + 2 * length unique) i f _ (omega arith)
        touched)

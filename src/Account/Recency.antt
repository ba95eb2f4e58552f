-- ===== src/Account/Recency.antt =====
-- How long the memory of `Account.Memory` holds a fill.
use hyperliquid_copytrader.Base.{
  ℕ, suc, ◌+◌, ◌≤◌, ◌<◌, true, false, List, [], ◌∷◌, ◌++◌, some, leb, if◌then◌else◌, length, ◌≡◌,
  refl, inl, inr, Bool-cases, Option-cases, arith,
}
use hyperliquid_copytrader.Base.Text.{text_eq_iff, text_eq_refl}
use hyperliquid_copytrader.Account.Records.{
  Identity, FillRecord, Fingerprint, identity, identity_eq,
}
use hyperliquid_copytrader.Account.Memory.{Entry, recall, forget, move_to_end, touch_all, trim}

-- The memory knows `i` by the fingerprint `f`, and at most `k` of its entries are newer.
abbrev pub Holds : ℕ → Identity → Fingerprint → List Entry → Type 0
Holds k i f [] = ⊥
Holds k i f ((j, g) ∷ es) = if identity_eq j i then (g ≡ f) × (length es ≤ k) else Holds k i f es

pub identity_eq-same : (i j : Identity) → identity_eq i j ≡ true → i ≡ j
identity_eq-same i j h =
    let a = (text_eq_iff i.account j.account).0 (ground arith) in
    let b = (text_eq_iff i.tx_hash j.tx_hash).0 (ground arith) in
    let c = (text_eq_iff i.tid j.tid).0 (ground arith) in cc

pub identity_eq_refl : (i : Identity) → identity_eq i i ≡ true
identity_eq_refl i = rw (text_eq_refl i.account, text_eq_refl i.tx_hash, text_eq_refl i.tid) refl

pub Holds-recall :
    (k : ℕ) (i : Identity) (f : Fingerprint) (es : List Entry)
    → Holds k i f es
    → recall i es ≡ some f
unfolding recall
Holds-recall k i f [] h = absurd h
Holds-recall k i f ((j, g) ∷ es) h = ground (arith, Holds-recall k i f es)

pub Holds-weaken :
    (k n : ℕ) (i : Identity) (f : Fingerprint) (es : List Entry)
    → k ≤ n
    → Holds k i f es
    → Holds n i f es
Holds-weaken k n i f [] l h = h
Holds-weaken k n i f ((j, g) ∷ es) l h = ground (arith, Holds-weaken k n i f es)

length-append_one : (es : List Entry) (e : Entry) → length (es ++ (e ∷ [])) ≡ suc (length es)
length-append_one [] e = refl
length-append_one (x ∷ es) e = ground (arith, length-append_one es e)

pub Holds-append :
    (k : ℕ) (i : Identity) (f : Fingerprint) (es : List Entry) (e : Entry)
    → Holds k i f es
    → Holds (suc k) i f (es ++ (e ∷ []))
Holds-append k i f [] e h = absurd h
Holds-append k i f ((j, g) ∷ es) e h =
    ground (arith, Holds-append k i f es e, length-append_one es e)

forget-shorter : (i : Identity) (es : List Entry) → length (forget i es) ≤ length es
unfolding forget
forget-shorter i [] = ground arith
forget-shorter i ((j, g) ∷ es) = ground (arith, forget-shorter i es)

pub Holds-forget :
    (k : ℕ) (i j : Identity) (f : Fingerprint) (es : List Entry)
    → identity_eq j i ≡ false
    → Holds k i f es
    → Holds k i f (forget j es)
unfolding forget
Holds-forget k i j f [] d h = absurd h
Holds-forget k i j f ((l, g) ∷ es) d h = elim (Bool-cases (identity_eq l j)) [
  | inl e ↦
      let same : l ≡ j = identity_eq-same l j e in
      let other : identity_eq l i ≡ false = rw same d in
      rw e (Holds-forget k i j f es d (rw other at h))
  | inr e ↦ elim (Bool-cases (identity_eq l i)) [
    | inl t ↦
        let short = forget-shorter j es in let (a, b) = (rw t at h) in rw (e, t) (a, omega arith)
    | inr t ↦ rw (e, t) (Holds-forget k i j f es d (rw t at h))
  ]
]

-- An identity at the end is held with nothing newer.
pub Holds-at_end :
    (i : Identity) (f : Fingerprint) (es : List Entry) → Holds 0 i f (forget i es ++ ((i, f) ∷ []))
unfolding forget
Holds-at_end i f [] = rw (identity_eq_refl i) (refl, omega arith)
Holds-at_end i f ((l, g) ∷ es) = elim (Bool-cases (identity_eq l i)) [
  | inl e ↦ rw e (Holds-at_end i f es)
  | inr e ↦ rw (e, e) (Holds-at_end i f es)
]

pub Holds-touch :
    (k : ℕ) (i j : Identity) (f : Fingerprint) (es : List Entry)
    → Holds k i f es
    → Holds (suc k) i f (move_to_end j es)
unfolding move_to_end
Holds-touch k i j f es h = elim (Bool-cases (identity_eq j i)) [
  | inl e ↦
      let same : j ≡ i = identity_eq-same j i e in
      rw (same, Holds-recall k i f es h)
        (Holds-weaken 0 (suc k) i f _ (omega arith) (Holds-at_end i f es))
  | inr e ↦ elim (Option-cases (recall j es)) [
    | inl unknown ↦ rw unknown (Holds-weaken k (suc k) i f es (omega arith) h)
    | inr (g, known) ↦
        rw known (Holds-append k i f (forget j es) (j, g) (Holds-forget k i j f es e h))
  ]
]

pub Holds-touch_all :
    (k : ℕ) (i : Identity) (f : Fingerprint) (rs : List FillRecord) (es : List Entry)
    → Holds k i f es
    → Holds (k + length rs) i f (touch_all rs es)
unfolding touch_all
Holds-touch_all k i f [] es h = Holds-weaken k (k + 0) i f es (omega arith) h
Holds-touch_all k i f (r ∷ rs) es h =
    let next = Holds-touch k i (identity r) f es h in
    Holds-weaken (suc k + length rs) (k + suc (length rs)) i f _ (omega arith)
      (Holds-touch_all (suc k) i f rs (move_to_end (identity r) es) next)

-- The oldest entries go first.
pub Holds-trim :
    (k capacity : ℕ) (i : Identity) (f : Fingerprint) (es : List Entry)
    → k < capacity
    → Holds k i f es
    → Holds k i f (trim capacity es)
unfolding trim
Holds-trim k capacity i f [] l h = absurd h
Holds-trim k capacity i f ((j, g) ∷ es) l h = elim (Bool-cases (leb (suc (length es)) capacity)) [
  | inl e ↦ rw e h
  | inr e ↦ elim (Bool-cases (identity_eq j i)) [
    | inl t ↦ absurd (let (a, b) = (rw t at h) in ground arith)
    | inr t ↦ rw e (Holds-trim k capacity i f es l (rw t at h))
  ]
]

pub trim-bounded : (capacity : ℕ) (es : List Entry) → length (trim capacity es) ≤ capacity
unfolding trim
trim-bounded capacity [] = omega arith
trim-bounded capacity (e ∷ es) = ground (arith, trim-bounded capacity es)

-- ===== src/Account/Seeded.antt =====
-- The memory holds the fills of a frame once the frame is reduced.
use hyperliquid_copytrader.Base.{
  ℕ, suc, ◌+◌, ◌≤◌, ◌<◌, true, false, List, [], ◌∷◌, ◌++◌, some, length, ◌≡◌, refl, inl, inr,
  Bool-cases, Option-cases, arith, ◌⊎◌,
}
use hyperliquid_copytrader.Journal.Records.{ok, >>=-returns, ok_injective}
use hyperliquid_copytrader.Account.Records.{
  Identity, FillRecord, Fingerprint, identity, identity_eq, fill_fingerprint, fingerprint_eq,
}
use hyperliquid_copytrader.Account.Memory.{
  Entry, recall, forget, move_to_end, learn, touch_all, remember, find_identity, admitted,
  unique_records, new_records,
}
use hyperliquid_copytrader.Account.Recency.{
  Holds, identity_eq-same, Holds-recall, Holds-weaken, Holds-at_end, Holds-touch_all, Holds-trim,
}

-- One of the records is the fill `i`.
abbrev pub Has : Identity → List FillRecord → Type 0
Has i [] = ⊥
Has i (r ∷ rs) = (identity_eq (identity r) i ≡ true) ⊎ Has i rs

-- The memory knows a fill by some fingerprint.
abbrev pub Known : Identity → List Entry → Type 0
Known i es = (f : Fingerprint) × (recall i es ≡ some f)

recall-append :
    (i j : Identity) (f g : Fingerprint) (es : List Entry)
    → recall i es ≡ some f
    → recall i (es ++ ((j, g) ∷ [])) ≡ some f
unfolding recall
recall-append i j f g [] h = absurd (ground arith)
recall-append i j f g ((l, u) ∷ es) h = ground (arith, recall-append i j f g es)

recall-forget :
    (i j : Identity) (f : Fingerprint) (es : List Entry)
    → identity_eq j i ≡ false
    → recall i es ≡ some f
    → recall i (forget j es) ≡ some f
unfolding recall forget
recall-forget i j f [] d h = h
recall-forget i j f ((l, u) ∷ es) d h = elim (Bool-cases (identity_eq l j)) [
  | inl e ↦
      let same : l ≡ j = identity_eq-same l j e in
      let other : identity_eq l i ≡ false = rw same d in
      rw e (recall-forget i j f es d (rw other at h))
  | inr e ↦ elim (Bool-cases (identity_eq l i)) [
    | inl t ↦ rw (e, t) (rw t at h)
    | inr t ↦ rw (e, t) (recall-forget i j f es d (rw t at h))
  ]
]

learn-Known :
    (i : Identity) (new : List FillRecord) (es : List Entry)
    → Has i new ⊎ Known i es
    → Known i (learn new es)
unfolding learn
learn-Known i [] es (inl a) = absurd a
learn-Known i [] es (inr b) = b
learn-Known i (r ∷ rs) es h =
    let j = identity r in
    learn-Known i rs (forget j es ++ ((j, fill_fingerprint r) ∷ []))
      (elim (Bool-cases (identity_eq j i)) [
        | inl e ↦
            let same : j ≡ i = identity_eq-same j i e in
            inr (
              fill_fingerprint r,
              rw same (
                  Holds-recall 0 i (fill_fingerprint r) _ (Holds-at_end i (fill_fingerprint r) es)),
            )
        | inr e ↦ elim h [
          | inl (inl t) ↦ absurd (cc)
          | inl (inr t) ↦ inl t
          | inr (f, known) ↦
              inr (f, recall-append i j f _ (forget j es) (recall-forget i j f es e known))
        ]
      ])

pub new_records-Known :
    (i : Identity) (es : List Entry) (rs new : List FillRecord)
    → Has i rs
    → new_records es rs ≡ ok new
    → Has i new ⊎ Known i es
unfolding new_records
new_records-Known i es [] new a h = absurd a
new_records-Known i es (r ∷ rs) new a h =
    let (rest, e, h₁) = >>=-returns (new_records es rs) _ h in
    let later : Has i rs → Has i rest ⊎ Known i es = λ b. new_records-Known i es rs rest b e in
    elim (Option-cases (recall (identity r) es)) [
      | inl fresh ↦ rw (← ok_injective _ new (rw fresh at h₁)) (elim a [
        | inl here ↦ inl (inl here)
        | inr b ↦ elim (later b) [ inl c ↦ inl (inr c) | inr c ↦ inr c ]
      ])
      | inr (g, old) ↦ elim (Bool-cases (fingerprint_eq g (fill_fingerprint r))) [
        | inl same ↦ rw (← ok_injective _ new (rw (old, same) at h₁)) (elim a [
          | inl here ↦ let t = identity_eq-same (identity r) i here in inr (g, rw (← t) old)
          | inr b ↦ later b
        ])
        | inr other ↦ absurd (let t = (rw (old, other) at h₁) in ground arith)
      ]
    ]

Known-touch : (i j : Identity) (es : List Entry) → Known i es → Known i (move_to_end j es)
unfolding move_to_end
Known-touch i j es (f, known) = elim (Bool-cases (identity_eq j i)) [
  | inl e ↦
      let same : j ≡ i = identity_eq-same j i e in
      rw (same, known) (f, Holds-recall 0 i f _ (Holds-at_end i f es))
  | inr e ↦ elim (Option-cases (recall j es)) [
    | inl unknown ↦ rw unknown (f, known)
    | inr (g, old) ↦
        rw old (f, recall-append i j f g (forget j es) (recall-forget i j f es e known))
  ]
]

move_to_end-Holds :
    (i : Identity) (f : Fingerprint) (es : List Entry)
    → recall i es ≡ some f
    → Holds 0 i f (move_to_end i es)
unfolding move_to_end
move_to_end-Holds i f es known = rw known (Holds-at_end i f es)

Holds-touched :
    (i : Identity) (rs : List FillRecord) (es : List Entry)
    → Has i rs
    → Known i es
    → (f : Fingerprint) × Holds (length rs) i f (touch_all rs es)
unfolding touch_all
Holds-touched i [] es a known = absurd a
Holds-touched i (r ∷ rs) es (inl here) (f, known) =
    let same : identity r ≡ i = identity_eq-same (identity r) i here in
    let fresh : Holds 0 i f (move_to_end i es) = move_to_end-Holds i f es known in
    (
      f,
      rw same (
          Holds-weaken (0 + length rs) (suc (length rs)) i f _ (omega arith)
            (Holds-touch_all 0 i f rs (move_to_end i es) fresh)),
    )
Holds-touched i (r ∷ rs) es (inr later) known =
    let (f, h) = Holds-touched i rs _ later (Known-touch i (identity r) es known) in
    (f, Holds-weaken (length rs) (suc (length rs)) i f _ (omega arith) h)

-- After a frame the memory holds each of its fills.
pub remember-Holds :
    (i : Identity) (capacity : ℕ) (new unique : List FillRecord) (es : List Entry)
    → new_records es unique ≡ ok new
    → Has i unique
    → length unique < capacity
    → (f : Fingerprint) × Holds (length unique) i f (remember capacity new unique es)
unfolding remember
remember-Holds i capacity new unique es e a room =
    let known = learn-Known i new es (new_records-Known i es unique new a e) in
    let (f, h) = Holds-touched i unique (learn new es) a known in
    (f, Holds-trim (length unique) capacity i f _ room h)

find_identity-Has :
    (i : Identity) (rs : List FillRecord) (p : FillRecord) → find_identity i rs ≡ some p → Has i rs
unfolding find_identity
find_identity-Has i [] p h = absurd (ground arith)
find_identity-Has i (r ∷ rs) p h = ground (arith, find_identity-Has i rs p)

Has-append :
    (i : Identity) (rs : List FillRecord) (r : FillRecord)
    → Has i rs ⊎ (identity_eq (identity r) i ≡ true)
    → Has i (rs ++ (r ∷ []))
Has-append i [] r (inl a) = absurd a
Has-append i [] r (inr b) = inl b
Has-append i (q ∷ rs) r (inl (inl here)) = inl here
Has-append i (q ∷ rs) r (inl (inr later)) = inr (Has-append i rs r (inl later))
Has-append i (q ∷ rs) r (inr b) = inr (Has-append i rs r (inr b))

length-append_record :
    (rs : List FillRecord) (r : FillRecord) → length (rs ++ (r ∷ [])) ≡ suc (length rs)
length-append_record [] r = refl
length-append_record (q ∷ rs) r = ground (arith, length-append_record rs r)

-- One step of the loop over a frame's records.
admitted-Has :
    (i : Identity) (seen next : List FillRecord) (r : FillRecord)
    → admitted seen r (find_identity (identity r) seen) ≡ ok next
    → Has i seen ⊎ (identity_eq (identity r) i ≡ true)
    → Has i next
admitted-Has i seen next r h a = elim (Option-cases (find_identity (identity r) seen)) [
  | inl fresh ↦ rw (← ok_injective _ next (rw fresh at h)) (Has-append i seen r a)
  | inr (p, old) ↦ elim (Bool-cases (fingerprint_eq (fill_fingerprint p) (fill_fingerprint r))) [
    | inl same ↦ rw (← ok_injective _ next (rw (old, same) at h)) (elim a [
      | inl b ↦ b
      | inr here ↦
          let t = identity_eq-same (identity r) i here in
          rw (← t) (find_identity-Has (identity r) seen p old)
    ])
    | inr other ↦ absurd (let t = (rw (old, other) at h) in ground arith)
  ]
]

admitted-shorter :
    (seen next : List FillRecord) (r : FillRecord)
    → admitted seen r (find_identity (identity r) seen) ≡ ok next
    → length next ≤ suc (length seen)
admitted-shorter seen next r h =
    let one = length-append_record seen r in
    elim (Option-cases (find_identity (identity r) seen)) [
      | inl fresh ↦ rw (← ok_injective _ next (rw fresh at h)) (omega arith)
      | inr (p, old) ↦
          elim (Bool-cases (fingerprint_eq (fill_fingerprint p) (fill_fingerprint r))) [
            | inl same ↦ rw (← ok_injective _ next (rw (old, same) at h)) (omega arith)
            | inr other ↦ absurd (let t = (rw (old, other) at h) in ground arith)
          ]
    ]

-- The unique records of a frame have each of its identities.
pub unique_records-Has :
    (i : Identity) (seen rs unique : List FillRecord)
    → unique_records seen rs ≡ ok unique
    → Has i seen ⊎ Has i rs
    → Has i unique
unfolding unique_records
unique_records-Has i seen [] unique h (inl a) = rw (← ok_injective seen unique h) a
unique_records-Has i seen [] unique h (inr a) = absurd a
unique_records-Has i seen (r ∷ rs) unique h a =
    let (next, e, h₁) = >>=-returns (admitted seen r (find_identity (identity r) seen)) _ h in
    unique_records-Has i next rs unique h₁ (elim a [
      | inl b ↦ inl (admitted-Has i seen next r e (inl b))
      | inr (inl here) ↦ inl (admitted-Has i seen next r e (inr here))
      | inr (inr later) ↦ inr later
    ])

pub unique_records-shorter :
    (seen rs unique : List FillRecord)
    → unique_records seen rs ≡ ok unique
    → length unique ≤ length seen + length rs
unfolding unique_records
unique_records-shorter seen [] unique h = rw (← ok_injective seen unique h) (omega arith)
unique_records-shorter seen (r ∷ rs) unique h =
    let (next, e, h₁) = >>=-returns (admitted seen r (find_identity (identity r) seen)) _ h in
    let one = admitted-shorter seen next r e in
    let ih = unique_records-shorter next rs unique h₁ in omega arith

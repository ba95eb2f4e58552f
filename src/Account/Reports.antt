-- ===== src/Account/Reports.antt =====
-- What a fill frame reports as new.
use hyperliquid_copytrader.Base.{
  ℕ, true, false, List, [], ◌∷◌, ◌++◌, Option, none, some, Bool-cases, Option-cases, ◌≡◌, refl, inl,
  inr, arith, ◌⊎◌, ◌↔◌,
}
use hyperliquid_copytrader.Base.Int.{ℤ}
use hyperliquid_copytrader.Base.Text.{Text}
use hyperliquid_copytrader.Journal.Records.{ok, >>=-returns, ok_injective}
use hyperliquid_copytrader.Wire.Json.{Json}
use hyperliquid_copytrader.Account.Records.{
  Identity, FillRecord, Component, identity, identity_eq, fill_fingerprint, fingerprint_eq,
}
use hyperliquid_copytrader.Account.Memory.{
  Entry, recall, unique_records, new_records, admitted, find_identity,
}
use hyperliquid_copytrader.Account.Recency.{identity_eq-same}
use hyperliquid_copytrader.Account.Seeded.{Has, unique_records-Has, new_records-Known}
use hyperliquid_copytrader.Account.Stream.{Stream}
use hyperliquid_copytrader.Account.Fills.{FillsUpdate, FillsFrame, read_fills, apply_fills}
use hyperliquid_copytrader.Account.Reduced.{Reduced, reduce_fills-Reduced}

-- What is new is one of the frame's records and not in the memory.
new_records-only :
    (i : Identity) (es : List Entry) (rs new : List FillRecord)
    → new_records es rs ≡ ok new
    → Has i new
    → Has i rs × (recall i es ≡ none)
unfolding new_records
new_records-only i es [] new h a = absurd (rw (← ok_injective [] new h) at a)
new_records-only i es (r ∷ rs) new h a =
    let (rest, e, h₁) = >>=-returns (new_records es rs) _ h in
    let later : Has i rest → Has i (r ∷ rs) × (recall i es ≡ none) =
      λ b. let (c, d) = new_records-only i es rs rest e b in (inr c, d) in
    elim (Option-cases (recall (identity r) es)) [
      | inl fresh ↦ elim (rw (← ok_injective _ new (rw fresh at h₁)) at a) [
        | inl here ↦ let t = identity_eq-same (identity r) i here in (inl here, rw (← t) fresh)
        | inr b ↦ later b
      ]
      | inr (g, old) ↦ elim (Bool-cases (fingerprint_eq g (fill_fingerprint r))) [
        | inl same ↦ later (rw (← ok_injective _ new (rw (old, same) at h₁)) at a)
        | inr other ↦ absurd (let t = (rw (old, other) at h₁) in ground arith)
      ]
    ]

Has-end :
    (i : Identity) (rs : List FillRecord) (r : FillRecord)
    → Has i (rs ++ (r ∷ []))
    → Has i rs ⊎ (identity_eq (identity r) i ≡ true)
Has-end i [] r (inl here) = inr here
Has-end i [] r (inr a) = absurd a
Has-end i (q ∷ rs) r (inl here) = inl (inl here)
Has-end i (q ∷ rs) r (inr a) = elim (Has-end i rs r a) [ inl b ↦ inl (inr b) | inr b ↦ inr b ]

admitted-only :
    (i : Identity) (seen next : List FillRecord) (r : FillRecord) (prior : Option FillRecord)
    → admitted seen r prior ≡ ok next
    → Has i next
    → Has i seen ⊎ (identity_eq (identity r) i ≡ true)
admitted-only i seen next r none h a = Has-end i seen r (rw (← ok_injective _ next h) at a)
admitted-only i seen next r (some p) h a =
    elim (Bool-cases (fingerprint_eq (fill_fingerprint p) (fill_fingerprint r))) [
      | inl same ↦ inl (rw (← ok_injective _ next (rw same at h)) at a)
      | inr other ↦ absurd (let t = (rw other at h) in ground arith)
    ]

-- The unique records have no other identities.
unique_records-only :
    (i : Identity) (seen rs unique : List FillRecord)
    → unique_records seen rs ≡ ok unique
    → Has i unique
    → Has i seen ⊎ Has i rs
unfolding unique_records
unique_records-only i seen [] unique h a = inl (rw (← ok_injective seen unique h) at a)
unique_records-only i seen (r ∷ rs) unique h a =
    let (next, e, h₁) = >>=-returns (admitted seen r (find_identity (identity r) seen)) _ h in
    elim (unique_records-only i next rs unique h₁ a) [
      | inr later ↦ inr (inr later)
      | inl b ↦ elim (admitted-only i seen next r _ e b) [
        | inl c ↦ inl c
        | inr here ↦ inr (inl here)
      ]
    ]

Reduced-new :
    (i : Identity) (s t : Stream) (records : List FillRecord) (w : Reduced s records t)
    → Has i w.new ↔ (Has i records × (recall i s.fill_fingerprints ≡ none))
Reduced-new i s t records w = (
  λ a.
      let (b, unknown) = new_records-only i s.fill_fingerprints w.unique w.new w.made_new a in
      elim (unique_records-only i [] records w.unique w.made_unique b) [
        | inl c ↦ absurd c
        | inr c ↦ (c, unknown)
      ],
  λ (a, unknown).
      let there = unique_records-Has i [] records w.unique w.made_unique (inr a) in
      elim (new_records-Known i s.fill_fingerprints w.unique w.new there w.made_new) [
        | inl b ↦ b
        | inr (f, known) ↦ absurd (cc)
      ],
)

module _ (shown : Json → Text) (int_text : Text → Option ℤ) where
  -- An accepted snapshot reports no fill as new. An accepted live frame reports exactly the fills
  -- of its records that the memory does not know.
  pub apply_fills-new_fills :
      (component : Component) (at : ℕ) (payload : Json) (frame : FillsFrame) (s t : Stream)
      (update : FillsUpdate)
      → read_fills shown int_text component at payload s ≡ ok frame
      → apply_fills shown int_text component at payload s ≡ ok (t, update)
      → (frame.is_snapshot ≡ true → update.new_fills ≡ [])
        × (frame.is_snapshot ≡ false
            → (i : Identity)
            → Has i update.new_fills
              ↔ (Has i frame.records × (recall i s.fill_fingerprints ≡ none)))
  unfolding apply_fills
  apply_fills-new_fills component at payload frame s t update read h =
      let (w, reports) =
        reduce_fills-Reduced component at frame.account frame.role frame.is_snapshot frame.records s
          t update (rw read at h) in
      (
        λ snapshot. rw (reports, snapshot) refl,
        λ live i. rw (reports, live) (Reduced-new i s t frame.records w),
      )

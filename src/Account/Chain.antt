-- ===== src/Account/Chain.antt =====
-- `_validated_fill_positions` (account_stream.py): live fills advance the positions.
use hyperliquid_copytrader.Base.{
  ℕ, true, List, [], ◌∷◌, Option, none, some, if◌then◌else◌, ◌≡◌, refl, inl, inr, Bool-cases, arith,
  ◌⊎◌, ◌↔◌,
}
use hyperliquid_copytrader.Base.Int.{ℤ, pos, ◌+ℤ◌}
use hyperliquid_copytrader.Base.Text.{Text, text_eq, text_eq_iff}
use hyperliquid_copytrader.Journal.Records.{Result, ok, err, ◌>>=◌, ok_injective}
use hyperliquid_copytrader.Account.Records.{
  AccountStreamError, Position, FillRecord, signed_size, int_eq, look_up, put,
  missing_start_position, broken_chain,
}

abbrev pub Positions : Type 0
Positions = List (Text × Position)

abbrev pub size_of : Option Position → ℤ
size_of none = pos 0
size_of (some p) = p.size

abbrev entry_of : FillRecord → Option Position → Option ℕ
entry_of f none = some f.price
entry_of f (some p) = p.entry_px

abbrev leverage_of : Option Position → Option ℕ
leverage_of none = none
leverage_of (some p) = p.leverage

abbrev filled_position : FillRecord → ℤ → Option Position → Position
filled_position f end prior = record {
  coin = f.market;
  size = end;
  entry_px = entry_of f prior;
  leverage = leverage_of prior;
  updated_ms = f.time_ms;
}

abbrev advanced :
    Positions → FillRecord → ℤ → ℤ → Option Position → Result AccountStreamError Positions
advanced ps f start end prior =
    if int_eq (size_of prior) end
    then ok ps
    else if int_eq (size_of prior) start
    then ok (put f.market (filled_position f end prior) ps)
    else err broken_chain

-- The positions after one fill.
abbrev pub advance : Positions → FillRecord → Option ℤ → Result AccountStreamError Positions
advance ps f none = err missing_start_position
advance ps f (some start) = advanced ps f start (start +ℤ signed_size f) (look_up f.market ps)

unfoldable pub validated_fill_positions :
    Positions → List FillRecord → Result AccountStreamError Positions
validated_fill_positions ps [] = ok ps
validated_fill_positions ps (f ∷ fs) = do
  next ← advance ps f f.start_position
  validated_fill_positions next fs

-- The size of a market's position; a market without an entry is flat.
abbrev pub size_in : Text → Positions → ℤ
size_in m ps = size_of (look_up m ps)

-- A fill's end position, which its venue reports as its start and its signed size.
abbrev pub end_of : FillRecord → Option ℤ → ℤ
end_of f none = signed_size f
end_of f (some start) = start +ℤ signed_size f

-- The sizes after some fills, where they are told only by the fills themselves.
abbrev pub last_end : Text → List FillRecord → ℤ → ℤ
last_end m [] size = size
last_end m (f ∷ fs) size =
    last_end m fs (if text_eq f.market m then end_of f f.start_position else size)

-- A fill names its start, and its market's size is there or, for a fill that is already counted, at its end.
abbrev pub StandsAt : FillRecord → Option ℤ → ℤ → Type 0
StandsAt f none size = ⊥
StandsAt f (some start) size = (size ≡ start) ⊎ (size ≡ start +ℤ signed_size f)

-- Every fill stands where the fills before it have left its market.
abbrev pub Continues : (Text → ℤ) → List FillRecord → Type 0
Continues size [] = Unit
Continues size (f ∷ fs) =
    StandsAt f f.start_position (size f.market)
    × Continues (λ m. if text_eq f.market m then end_of f f.start_position else size m) fs

pub int_eq_iff : (a b : ℤ) → (int_eq a b ≡ true) ↔ (a ≡ b)
int_eq_iff a b = ground arith

pub look_up-put :
    {A : Type 0} (k m : Text) (v : A) (es : List (Text × A))
    → look_up m (put k v es) ≡ (if text_eq k m then some v else look_up m es)
unfolding look_up put
look_up-put k m v [] = refl
look_up-put k m v ((j, w) ∷ es) = elim (Bool-cases (text_eq j k)) [
  | inl e ↦ let same : j ≡ k = (text_eq_iff j k).0 e in rw (e, same) (ground arith)
  | inr e ↦ elim (Bool-cases (text_eq j m)) [
    | inl f ↦
        let same : j ≡ m = (text_eq_iff j m).0 f in
        elim (Bool-cases (text_eq k m)) [
          | inl g ↦ let also : k ≡ m = (text_eq_iff k m).0 g in cc
          | inr g ↦ rw (e, f, g) refl
        ]
    | inr f ↦ rw (e, f) (look_up-put k m v es)
  ]
]

size_in-put :
    (k m : Text) (p : Position) (ps : Positions)
    → size_in m (put k p ps) ≡ (if text_eq k m then p.size else size_in m ps)
size_in-put k m p ps = rw (look_up-put k m p ps) (ground arith)

-- What one fill does to each size, and where it must have stood.
pub advance-size :
    (ps : Positions) (f : FillRecord) (start : ℤ) (next : Positions) (m : Text)
    → advanced ps f start (start +ℤ signed_size f) (look_up f.market ps) ≡ ok next
    → (size_in m next ≡ (if text_eq f.market m then start +ℤ signed_size f else size_in m ps))
      × ((size_in f.market ps ≡ start) ⊎ (size_in f.market ps ≡ start +ℤ signed_size f))
advance-size ps f start next m h =
    let end = start +ℤ signed_size f in
    let here = size_of (look_up f.market ps) in
    elim (Bool-cases (int_eq here end)) [
      | inl e ↦
          let at_end : here ≡ end = (int_eq_iff here end).0 e in
          let same : ps ≡ next = ok_injective _ _ (rw e at h) in
          let kept : size_in m ps ≡ (if text_eq f.market m then end else size_in m ps) =
            elim (Bool-cases (text_eq f.market m)) [
              | inl t ↦ rw (t, ← at_end, (text_eq_iff f.market m).0 t) refl
              | inr t ↦ rw t refl
            ] in
          (rw (← same) kept, inr at_end)
      | inr e ↦ elim (Bool-cases (int_eq here start)) [
        | inl s ↦
            let at_start : here ≡ start = (int_eq_iff here start).0 s in
            let same = ok_injective _ _ (rw (e, s) at h) in
            (rw (← same) (size_in-put f.market m _ ps), inl at_start)
        | inr s ↦ absurd (ground arith)
      ]
    ]

-- A fill that stands at its market's size is accepted.
pub stands-advance :
    (ps : Positions) (f : FillRecord) (start : Option ℤ)
    → StandsAt f start (size_in f.market ps)
    → (next : Positions) × (advance ps f start ≡ ok next)
stands-advance ps f none s = absurd s
stands-advance ps f (some start) s =
    let end = start +ℤ signed_size f in
    let here = size_in f.market ps in
    elim (Bool-cases (int_eq here end)) [
      | inl e ↦ (ps, rw e refl)
      | inr e ↦ elim s [
        | inl at_start ↦ (
          put f.market (filled_position f end (look_up f.market ps)) ps,
          rw (e, (int_eq_iff here start).1 at_start) refl,
        )
        | inr at_end ↦ absurd (let t = (int_eq_iff here end).1 at_end in cc)
      ]
    ]

-- ===== src/Account/Continuity.antt =====
-- Live fills and the sizes of positions: a chain is accepted when it is continuous, and then each
-- size is what the fills say.
use hyperliquid_copytrader.Base.{
  List, [], ◌∷◌, Option, none, some, if◌then◌else◌, ◌≡◌, refl, arith, ◌↔◌,
}
use hyperliquid_copytrader.Base.Int.{ℤ}
use hyperliquid_copytrader.Base.Text.{Text, text_eq}
use hyperliquid_copytrader.Journal.Records.{ok, >>=-returns}
use hyperliquid_copytrader.Account.Records.{FillRecord}
use hyperliquid_copytrader.Account.Chain.{
  Positions, advance, stands-advance, validated_fill_positions, size_in, end_of, last_end, StandsAt,
  Continues, advance-size,
}

-- The sizes that one fill leaves.
abbrev sizes_after : (Text → ℤ) → FillRecord → Text → ℤ
sizes_after size f m = if text_eq f.market m then end_of f f.start_position else size m

advance-moved :
    (ps : Positions) (f : FillRecord) (start : Option ℤ) (next : Positions)
    → advance ps f start ≡ ok next
    → ((m : Text) → size_in m next ≡ (if text_eq f.market m then end_of f start else size_in m ps))
      × StandsAt f start (size_in f.market ps)
advance-moved ps f none next h = absurd (ground arith)
advance-moved ps f (some start) next h =
    ((λ m. (advance-size ps f start next m h).0), (advance-size ps f start next f.market h).1)

-- When live fills are accepted, the size of every market is the end position of its last fill, or
-- what it was where there is none.
pub validated_fill_positions-last_end :
    (m : Text) (ps : Positions) (fs : List FillRecord) (next : Positions)
    → validated_fill_positions ps fs ≡ ok next
    → size_in m next ≡ last_end m fs (size_in m ps)
unfolding validated_fill_positions
validated_fill_positions-last_end m ps [] next h = ground arith
validated_fill_positions-last_end m ps (f ∷ fs) next h =
    let (mid, e, h₁) = >>=-returns (advance ps f f.start_position) _ h in
    rw (← (advance-moved ps f f.start_position mid e).0 m)
      (validated_fill_positions-last_end m mid fs next h₁)

moved-sizes :
    (ps : Positions) (f : FillRecord) (next : Positions)
    → advance ps f f.start_position ≡ ok next
    → (λ m. size_in m next) ≡ sizes_after (λ m. size_in m ps) f
moved-sizes ps f next e = λ i m. (advance-moved ps f f.start_position next e).0 m i

accepted-Continues :
    (ps : Positions) (fs : List FillRecord) (next : Positions)
    → validated_fill_positions ps fs ≡ ok next
    → Continues (λ m. size_in m ps) fs
unfolding validated_fill_positions
accepted-Continues ps [] next h = tt
accepted-Continues ps (f ∷ fs) next h =
    let (mid, e, h₁) = >>=-returns (advance ps f f.start_position) _ h in
    (
      (advance-moved ps f f.start_position mid e).1,
      rw (← moved-sizes ps f mid e) (accepted-Continues mid fs next h₁),
    )

Continues-accepted :
    (ps : Positions) (fs : List FillRecord)
    → Continues (λ m. size_in m ps) fs
    → (next : Positions) × (validated_fill_positions ps fs ≡ ok next)
unfolding validated_fill_positions
Continues-accepted ps [] c = (ps, refl)
Continues-accepted ps (f ∷ fs) (s, c) =
    let (mid, e) = stands-advance ps f f.start_position s in
    let (next, h) = Continues-accepted mid fs (rw (moved-sizes ps f mid e) c) in
    (next, rw (e, h) refl)

-- Live fills are accepted exactly when each of them names a start position and the fills before it
-- have left its market there, or at its end.
pub validated_fill_positions-Continues :
    (ps : Positions) (fs : List FillRecord)
    → ((next : Positions) × (validated_fill_positions ps fs ≡ ok next))
      ↔ Continues (λ m. size_in m ps) fs
validated_fill_positions-Continues ps fs =
    ((λ r. accepted-Continues ps fs r.0 r.1), Continues-accepted ps fs)

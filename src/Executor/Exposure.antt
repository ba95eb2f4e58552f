-- ===== src/Executor/Exposure.antt =====
-- `unresolved_signed_remaining`: the total of a market is the sum over its rows.
use hyperliquid_copytrader.Base.{
  ◌≡◌, refl, sym, ap, ◌∙◌, Bool, true, false, not, ◌&&◌, List, [], ◌∷◌, arith, inl, inr, Bool-cases,
  if◌then◌else◌,
}
use hyperliquid_copytrader.Base.Int.{ℤ, pos, ◌+ℤ◌, +ℤ_assoc, int_laws}
use hyperliquid_copytrader.Base.Text.{Text, text_eq, text_eq_iff}
use hyperliquid_copytrader.Journal.States.{prepared, state_eq}
use hyperliquid_copytrader.Journal.Records.{ActionRecord}
use hyperliquid_copytrader.Executor.Recover.{signed_remaining, add_to, sum_remaining}

-- `result.get(market, 0)`
unfoldable pub entry : Text → List (Text × ℤ) → ℤ
entry market [] = pos 0
entry market ((m, total) ∷ rest) = if text_eq m market then total else entry market rest

abbrev pub part_of : Text → ActionRecord → ℤ
part_of market r =
    if not (state_eq r.state prepared) && text_eq r.market market then signed_remaining r else pos 0

-- The signed size that the rows behind the send boundary leave open in the market.
unfoldable pub exposure : Text → List ActionRecord → ℤ
exposure market [] = pos 0
exposure market (r ∷ rs) = part_of market r +ℤ exposure market rs

+ℤ_zero : (a : ℤ) → a +ℤ pos 0 ≡ a
+ℤ_zero a = omega int_laws

entry-add_to :
    (market m : Text) (amount : ℤ) (result : List (Text × ℤ))
    → entry market (add_to m amount result)
      ≡ (if text_eq m market then entry market result +ℤ amount else entry market result)
unfolding entry add_to
entry-add_to market m amount [] = refl
entry-add_to market m amount ((k, total) ∷ rest) =
    let same = text_eq_iff k m in
    let here = text_eq_iff k market in
    let there = text_eq_iff m market in
    ground (arith, same, here, there, entry-add_to market m amount rest)

if_zero :
    (test : Bool) (x amount : ℤ)
    → (if test then x +ℤ amount else x) ≡ x +ℤ (if test then amount else pos 0)
if_zero true x amount = refl
if_zero false x amount = sym (+ℤ_zero x)

one_row :
    (market : Text) (r : ActionRecord) (result : List (Text × ℤ))
    → entry market
        (if state_eq r.state prepared then result else add_to r.market (signed_remaining r) result)
      ≡ entry market result +ℤ part_of market r
one_row market r result = elim (Bool-cases (state_eq r.state prepared)) [
  | inl unsent ↦ rw unsent (sym (+ℤ_zero (entry market result)))
  | inr behind ↦ rw behind (
      entry-add_to market r.market (signed_remaining r) result
      ∙ if_zero (text_eq r.market market) (entry market result) (signed_remaining r))
]

-- After the loop of `unresolved_signed_remaining` a market's entry has grown by the sum of the
-- signed remaining sizes of its rows that are not PREPARED.
pub entry-sum_remaining :
    (market : Text) (rs : List ActionRecord) (result : List (Text × ℤ))
    → entry market (sum_remaining rs result) ≡ entry market result +ℤ exposure market rs
unfolding sum_remaining exposure
entry-sum_remaining market [] result = sym (+ℤ_zero (entry market result))
entry-sum_remaining market (r ∷ rs) result =
    entry-sum_remaining market rs _
    ∙ ap (λ x. x +ℤ exposure market rs) (one_row market r result)
    ∙ +ℤ_assoc (entry market result) (part_of market r) (exposure market rs)

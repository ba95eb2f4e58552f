-- ===== src/Engine/Rounds.antt =====
-- The search of `choose_next_action` over the markets.
use hyperliquid_copytrader.Base.{◌≡◌, Bool, true, false, List, [], ◌∷◌, ◌⊎◌, All}
use hyperliquid_copytrader.Base.Int.{ℤ}
use hyperliquid_copytrader.Base.Text.{Text}
use hyperliquid_copytrader.Executor.Records.{NextAction}
use hyperliquid_copytrader.Engine.Precision.{DecimalContext}
use hyperliquid_copytrader.Engine.Records.{Blocker}
use hyperliquid_copytrader.Engine.Choose.{Inputs, settled, deferred, acts, needs_reduction, judge}
use hyperliquid_copytrader.Engine.Chosen.{Chosen}

-- Once a market needs no reduction, none of those after it does.
ReductionsFirst : (Text → Bool) → List Text → Type 0
ReductionsFirst reduces [] = Unit
ReductionsFirst reduces (m ∷ ms) =
    (reduces m ≡ false → All (λ k. reduces k ≡ false) ms) × ReductionsFirst reduces ms

-- The loop went past a market: its target is reached, or its action was put off.
abbrev pub Passed : DecimalContext → Inputs → Text → Type 0
Passed c i m = (judge c i m ≡ settled) ⊎ ((b : Blocker) × (r : ℤ) × (judge c i m ≡ deferred b r))

module _ (c : DecimalContext) (i : Inputs) where
  record Found (ms : List Text) (a : NextAction) : Type 0 where
    market : Text
    residual : ℤ
    judged : judge c i market ≡ acts a residual
    reductions :
        needs_reduction i market ≡ false → All (λ k. needs_reduction i k ≡ true → Passed c i k) ms

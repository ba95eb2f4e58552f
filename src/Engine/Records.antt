-- ===== src/Engine/Records.antt =====
-- The records of desired_engine.py, with `ContinuousSlotConfig` (continuous_config.py) as far as the
-- engine reads it. A dictionary is the list of its entries, with distinct keys.
use hyperliquid_copytrader.Base.{
  ℕ, Bool, List, [], ◌∷◌, Option, none, some, if◌then◌else◌, All, inl, inr, Bool-cases,
}
use hyperliquid_copytrader.Base.Int.{ℤ, pos}
use hyperliquid_copytrader.Base.Text.{Text}
use hyperliquid_copytrader.Account.Chain.{Positions}
use hyperliquid_copytrader.Engine.Precision.{Decimal, finite}
use hyperliquid_copytrader.Engine.Preflight.{Reason, is_zero}
use hyperliquid_copytrader.Executor.Records.{NextAction}

pub record SlotConfig : Type 0 where
  pub slot : Text
  pub multiplier : ℕ
  pub max_order_notional_usd : ℕ
  pub max_gross_exposure_usd : ℕ
  pub max_open_positions : ℕ
  pub max_leverage : ℕ
  pub allowed_markets : List Text

pub record DesiredPortfolio : Type 0 where
  pub desired_id : Text
  pub positions : Positions
  pub source_equity : ℕ
  pub follower_equity : ℕ
  pub scale : ℕ
  pub gross_scale : ℕ
  pub gross_notional_usd : ℕ

-- Why a market gets no action.
pub data Blocker : Type 0 where
  unresolved_action no_fresh_metadata no_order_rules below_one_lot close_moves_away : Blocker
  sub_minimum_debt close_refused : Reason → Blocker

-- `ActionDecision`; a blocker names its market.
pub record ActionDecision : Type 0 where
  pub action : Option NextAction
  pub residual : ℤ
  pub blocker : Option (Text × Blocker)
  pub skipped_blockers : List (Text × Blocker)

-- A mid that is there, finite and positive.
abbrev pub usable_mid : Option Decimal → Option ℕ
usable_mid (some (finite (pos n))) = if is_zero (pos n) then none else some n
usable_mid _ = none

module _ {ℓ} {A : Type ℓ} (before : A → A → Bool) where
  abbrev pub insert_by : A → List A → List A
  insert_by x [] = x ∷ []
  insert_by x (y ∷ ys) = let rest = insert_by x ys in if before x y then x ∷ y ∷ ys else y ∷ rest

  -- `sorted(xs, key=...)`, where `before` compares the keys.
  abbrev pub sort_by : List A → List A
  sort_by [] = []
  sort_by (x ∷ xs) = insert_by x (sort_by xs)

  pub insert_by-All {κ} :
      (P : A → Type κ) (x : A) (ys : List A) → P x → All P ys → All P (insert_by x ys)
  insert_by-All P x [] p h = (p, tt)
  insert_by-All P x (y ∷ ys) p (q, h) = elim (Bool-cases (before x y)) [
    | inl e ↦ rw e (p, (q, h))
    | inr e ↦ rw e (q, insert_by-All P x ys p h)
  ]

  pub sort_by-All {κ} : (P : A → Type κ) (xs : List A) → All P xs → All P (sort_by xs)
  sort_by-All P [] h = tt
  sort_by-All P (x ∷ xs) (p, h) = insert_by-All P x (sort_by xs) p (sort_by-All P xs h)

-- ===== src/Engine/Chosen.antt =====
-- What is known of the action that `choose_next_action` chooses.
use hyperliquid_copytrader.Base.{
  ℕ, ◌≤◌, ◌<◌, ◌≡◌, refl, sym, Bool, true, false, not, Option, none, some, if◌then◌else◌, arith,
  inl, inr, Bool-cases, Option-cases,
}
use hyperliquid_copytrader.Base.Int.{ℤ, pos, ◌+ℤ◌, ◌-ℤ◌}
use hyperliquid_copytrader.Base.Text.{Text}
use hyperliquid_copytrader.Wire.Json.{magnitude}
use hyperliquid_copytrader.Executor.Records.{NextAction}
use hyperliquid_copytrader.Engine.Precision.{DecimalContext, with_sign}
use hyperliquid_copytrader.Engine.Preflight.{HyperliquidPerpRules, is_zero}
use hyperliquid_copytrader.Engine.Records.{Blocker}
use hyperliquid_copytrader.Engine.Choose.{
  Inputs, Outcome, deferred, acts, desired_size, confirmed_size, unresolved_size, raw_size,
  reduces_only, capped, lesser, action_of, order_of, rules_for, max_size, signed_size, full_chunk,
  improves, placeable_order, close_instead, place, with_metadata, judge,
}
use hyperliquid_copytrader.Engine.Sizes.{
  IsPartOf, capped-IsPartOf, quantize_size-IsPartOf, with_sign-IsPartOf, IsPartOf-trans, nearer,
  reduction_leaves, increase_stays, close_leaves,
}
use hyperliquid_copytrader.Engine.Admitted.{Admitted, preflight-Admitted, ltb-holds}

-- The sizes of a reduction and of another order.
abbrev pub RightWay : Bool → ℤ → ℤ → ℤ → Type 0
RightWay true desired confirmed s = IsPartOf (confirmed +ℤ s) confirmed
RightWay false desired confirmed s =
    IsPartOf confirmed (confirmed +ℤ s) × IsPartOf (confirmed +ℤ s) desired

-- An action of signed size `size` on a market.
pub record Chosen (c : DecimalContext) (i : Inputs) (market : Text) (a : NextAction) : Type 0 where
  pub size : ℤ
  pub is : a ≡ action_of i market size a.reduce_only
  pub some_size : is_zero size ≡ false
  pub resolved : is_zero (unresolved_size i market) ≡ true
  pub nearer_target :
      magnitude (desired_size i market -ℤ (confirmed_size i market +ℤ size))
      < magnitude (desired_size i market -ℤ confirmed_size i market)
  pub right_way : RightWay a.reduce_only (desired_size i market) (confirmed_size i market) size
  pub kind : a.reduce_only ≡ reduces_only (desired_size i market) (confirmed_size i market)
  pub mid : ℕ
  pub rules : HyperliquidPerpRules
  pub admitted : Admitted c (order_of i market rules mid size a.reduce_only)

acts_injective : (a b : NextAction) (r t : ℤ) → ◌≡◌ {A = Outcome} (acts a r) (acts b t) → a ≡ b
acts_injective a b r t h = cc

way_of_part :
    (desired confirmed s : ℤ) (reduce_only : Bool)
    → IsPartOf s (raw_size desired confirmed)
    → reduce_only ≡ reduces_only desired confirmed
    → RightWay reduce_only desired confirmed s
way_of_part desired confirmed s true h e = reduction_leaves desired confirmed s h (cc)
way_of_part desired confirmed s false h e = increase_stays desired confirmed s h (cc)

sum_with_zero : (a s : ℤ) → is_zero s ≡ true → a +ℤ s ≡ a
unfolding ◌+ℤ◌
sum_with_zero a s h = ground arith

not_below : (n : ℕ) → n < n → ⊥
not_below n h = omega arith

lesser-below : (a b : ℕ) → lesser a b ≤ a
lesser-below a b = ground arith

back_magnitude : (z : ℤ) → magnitude (pos 0 -ℤ z) ≡ magnitude z
unfolding ◌-ℤ◌
back_magnitude z = ground arith

zero_improves_nothing :
    (c : DecimalContext) (desired confirmed s : ℤ)
    → improves c desired confirmed s ≡ true
    → (is_zero s ≡ false)
      × (magnitude (desired -ℤ (confirmed +ℤ s)) < magnitude (desired -ℤ confirmed))
zero_improves_nothing c desired confirmed s h =
    let now = magnitude (desired -ℤ confirmed) in
    let next = magnitude (desired -ℤ (confirmed +ℤ s)) in
    let less : next < now = ltb-holds next now h in
    (
      elim (Bool-cases (is_zero s)) [
        | inr e ↦ e
        | inl e ↦ absurd (
            not_below (magnitude (desired -ℤ confirmed)) (rw (sum_with_zero confirmed s e) at less))
      ],
      less,
    )

module _ (c : DecimalContext) (i : Inputs) (market : Text) where
  chunk_is_part :
      (mid decimals : ℕ)
      → IsPartOf (full_chunk c i market mid decimals) (pos 0 -ℤ confirmed_size i market)
  chunk_is_part mid decimals =
      let back = pos 0 -ℤ confirmed_size i market in
      let length = lesser (magnitude (confirmed_size i market)) (max_size c i mid) in
      IsPartOf-trans _ (with_sign back length) back
        (quantize_size-IsPartOf c (with_sign back length) decimals)
        (with_sign-IsPartOf back length (
          rw (back_magnitude (confirmed_size i market))
            (lesser-below (magnitude (confirmed_size i market)) (max_size c i mid))))

  order_is_part :
      (mid decimals : ℕ)
      → IsPartOf
          (signed_size c i market mid decimals)
          (raw_size (desired_size i market) (confirmed_size i market))
  order_is_part mid decimals =
      let raw = raw_size (desired_size i market) (confirmed_size i market) in
      let short = capped (max_size c i mid) raw in
      IsPartOf-trans _ short raw (quantize_size-IsPartOf c short decimals)
        (capped-IsPartOf (max_size c i mid) raw)

  close_instead-Chosen :
      (rules : HyperliquidPerpRules) (mid decimals : ℕ) (residual r : ℤ) (a : NextAction)
      → is_zero (unresolved_size i market) ≡ true
      → reduces_only (desired_size i market) (confirmed_size i market) ≡ true
      → close_instead c i market rules mid (full_chunk c i market mid decimals) residual ≡ acts a r
      → Chosen c i market a
  close_instead-Chosen rules mid decimals residual r a free kind h =
      let desired = desired_size i market in
      let confirmed = confirmed_size i market in
      let chunk = full_chunk c i market mid decimals in
      elim (Bool-cases (improves c desired confirmed chunk)) [
        | inr e ↦ absurd (let t = (rw e at h) in cc)
        | inl e ↦ elim (Bool-cases (placeable_order c i market rules mid chunk true)) [
          | inr p ↦ absurd (let t = (rw (e, p) at h) in cc)
          | inl p ↦
              let same : action_of i market chunk true ≡ a =
                acts_injective _ a residual r (rw (e, p) at h) in
              let (some_size, nearer_target) = zero_improves_nothing c desired confirmed chunk e in
              rw (← same) (record {
                size = chunk;
                is = refl;
                some_size = some_size;
                resolved = free;
                nearer_target = nearer_target;
                right_way = close_leaves confirmed chunk (chunk_is_part mid decimals);
                kind = sym kind;
                mid = mid;
                rules = rules;
                admitted = preflight-Admitted c (order_of i market rules mid chunk true) p;
              })
        ]
      ]

  after_refusal :
      (rules : HyperliquidPerpRules) (mid decimals : ℕ) (residual r : ℤ) (reduce_only : Bool)
      (why : Blocker) (a : NextAction)
      → is_zero (unresolved_size i market) ≡ true
      → reduce_only ≡ reduces_only (desired_size i market) (confirmed_size i market)
      → (if not reduce_only
          then deferred why residual
          else close_instead c i market rules mid (full_chunk c i market mid decimals) residual)
        ≡ acts a r
      → Chosen c i market a
  after_refusal rules mid decimals residual r false why a free kind h = absurd (cc)
  after_refusal rules mid decimals residual r true why a free kind h =
      close_instead-Chosen rules mid decimals residual r a free (sym kind) h

  place-Chosen :
      (rules : HyperliquidPerpRules) (mid decimals : ℕ) (residual r : ℤ) (reduce_only : Bool)
      (a : NextAction)
      → is_zero (unresolved_size i market) ≡ true
      → is_zero (signed_size c i market mid decimals) ≡ false
      → reduce_only ≡ reduces_only (desired_size i market) (confirmed_size i market)
      → place c i market rules mid
          (signed_size c i market mid decimals)
          (full_chunk c i market mid decimals)
          reduce_only
          residual
        ≡ acts a r
      → Chosen c i market a
  place-Chosen rules mid decimals residual r reduce_only a free nonzero kind h =
      let desired = desired_size i market in
      let confirmed = confirmed_size i market in
      let size = signed_size c i market mid decimals in
      elim (Bool-cases (placeable_order c i market rules mid size reduce_only)) [
        | inl p ↦
            let same : action_of i market size reduce_only ≡ a =
              acts_injective _ a residual r (rw p at h) in
            let part = order_is_part mid decimals in
            rw (← same) (record {
              size = size;
              is = refl;
              some_size = nonzero;
              resolved = free;
              nearer_target = nearer desired confirmed size part nonzero;
              right_way = way_of_part desired confirmed size reduce_only part kind;
              kind = kind;
              mid = mid;
              rules = rules;
              admitted = preflight-Admitted c (order_of i market rules mid size reduce_only) p;
            })
        | inr p ↦ after_refusal rules mid decimals residual r reduce_only _ a free kind (rw p at h)
      ]

  with_metadata-Chosen :
      (residual r : ℤ) (a : NextAction) (there : Option (ℕ × ℕ))
      → is_zero (unresolved_size i market) ≡ true
      → with_metadata c i market residual there ≡ acts a r
      → Chosen c i market a
  with_metadata-Chosen residual r a none free h = absurd (cc)
  with_metadata-Chosen residual r a (some (mid, decimals)) free h =
      elim (Bool-cases (is_zero (signed_size c i market mid decimals))) [
        | inl e ↦ absurd (let t = (rw e at h) in cc)
        | inr e ↦ elim (Option-cases (rules_for c i market decimals)) [
          | inl n ↦ absurd (let t = (rw (e, n) at h) in cc)
          | inr (rules, known) ↦
              place-Chosen rules mid decimals residual r
                (reduces_only (desired_size i market) (confirmed_size i market)) a free e refl
                (rw (e, known) at h)
        ]
      ]

  pub judge-Chosen : (r : ℤ) (a : NextAction) → judge c i market ≡ acts a r → Chosen c i market a
  unfolding judge
  judge-Chosen r a h =
      let residual =
        desired_size i market -ℤ (confirmed_size i market +ℤ unresolved_size i market) in
      elim (Bool-cases (is_zero residual)) [
        | inl e ↦ absurd (let t = (rw e at h) in cc)
        | inr e ↦ elim (Bool-cases (is_zero (unresolved_size i market))) [
          | inr u ↦ absurd (let t = (rw (e, u) at h) in cc)
          | inl u ↦ with_metadata-Chosen residual r a _ u (rw (e, u) at h)
        ]
      ]

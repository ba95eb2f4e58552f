-- ===== src/Engine/Choose.antt =====
-- `choose_next_action` (desired_engine.py).
use hyperliquid_copytrader.Base.{
  ℕ, ◌*◌, Bool, true, false, not, ◌&&◌, ◌||◌, List, [], ◌∷◌, ◌++◌, Option, none, some, ltb,
  if◌then◌else◌,
}
use hyperliquid_copytrader.Base.Int.{ℤ, pos, ltb_ℤ, ◌+ℤ◌, ◌-ℤ◌}
use hyperliquid_copytrader.Base.Text.{Text, codes, text_lt}
use hyperliquid_copytrader.Journal.Records.{DecimalText}
use hyperliquid_copytrader.Wire.Json.{magnitude}
use hyperliquid_copytrader.Account.Records.{Position, look_up}
use hyperliquid_copytrader.Account.Chain.{Positions, size_of}
use hyperliquid_copytrader.Account.Stream.{member}
use hyperliquid_copytrader.Executor.Records.{NextAction}
use hyperliquid_copytrader.Engine.Precision.{
  DecimalContext, Decimal, finite, one, quantize_size, with_sign,
}
use hyperliquid_copytrader.Engine.Preflight.{
  HyperliquidPerpRules, OrderRequest, Reason, is_placeable, is_zero, preflight,
}
use hyperliquid_copytrader.Engine.Records.{
  SlotConfig, DesiredPortfolio, Blocker, unresolved_action, no_fresh_metadata, no_order_rules,
  below_one_lot, close_moves_away, sub_minimum_debt, close_refused, ActionDecision, usable_mid,
  sort_by,
}

-- The arguments of `choose_next_action`.
pub record Inputs : Type 0 where
  pub slot : SlotConfig
  pub desired : DesiredPortfolio
  pub follower_positions : Positions
  pub unresolved_signed_remaining : List (Text × ℤ)
  pub mids : List (Text × Decimal)
  pub size_decimals : List (Text × ℕ)
  pub market_rules : Option (List (Text × HyperliquidPerpRules))

abbrev size_or_zero : Option ℤ → ℤ
size_or_zero none = pos 0
size_or_zero (some z) = z

abbrev pub desired_size : Inputs → Text → ℤ
desired_size i market = size_of (look_up market i.desired.positions)

abbrev pub confirmed_size : Inputs → Text → ℤ
confirmed_size i market = size_of (look_up market i.follower_positions)

abbrev pub unresolved_size : Inputs → Text → ℤ
unresolved_size i market = size_or_zero (look_up market i.unresolved_signed_remaining)

abbrev pub is_positive : ℤ → Bool
is_positive z = ltb_ℤ (pos 0) z

abbrev pub differ : Bool → Bool → Bool
differ true b = not b
differ false b = b

-- `needs_reduction`, of a desired and a confirmed size
unfoldable pub shrinks : ℤ → ℤ → Bool
shrinks desired confirmed =
    not (is_zero confirmed)
    && (is_zero desired
        || differ (is_positive confirmed) (is_positive desired)
        || ltb (magnitude desired) (magnitude confirmed))

abbrev pub needs_reduction : Inputs → Text → Bool
needs_reduction i market = shrinks (desired_size i market) (confirmed_size i market)

-- The order of `markets`: those that need a reduction first, each kind by name.
abbrev pub market_before : (Text → Bool) → Text → Text → Bool
market_before reduces a b =
    (reduces a && not (reduces b)) || (not (differ (reduces a) (reduces b)) && not (text_lt b a))

abbrev keys {ℓ} : {A : Type ℓ} → List (Text × A) → List Text
keys [] = []
keys ((k, v) ∷ rest) = k ∷ keys rest

abbrev without : List Text → List Text → List Text
without known [] = []
without known (m ∷ ms) = let rest = without known ms in if member m known then rest else m ∷ rest

abbrev pub all_markets : Inputs → List Text
all_markets i =
    let wanted = keys i.desired.positions in wanted ++ without wanted (keys i.follower_positions)

abbrev pub ordered_markets : Inputs → List Text
ordered_markets i = sort_by (market_before (needs_reduction i)) (all_markets i)

-- The desired and the confirmed size have opposite signs.
unfoldable pub reverses : ℤ → ℤ → Bool
reverses desired confirmed =
    not (is_zero confirmed)
    && not (is_zero desired)
    && differ (is_positive confirmed) (is_positive desired)

-- `raw_action_size`, before it is capped
unfoldable pub raw_size : ℤ → ℤ → ℤ
raw_size desired confirmed =
    if reverses desired confirmed then pos 0 -ℤ confirmed else desired -ℤ confirmed

-- `reduce_only`
unfoldable pub reduces_only : ℤ → ℤ → Bool
reduces_only desired confirmed =
    let raw = raw_size desired confirmed in
    reverses desired confirmed
    || (not (is_zero confirmed)
        && not (is_zero raw)
        && differ (is_positive raw) (is_positive confirmed)
        && ltb (magnitude desired) (magnitude confirmed))

-- `max_size.copy_sign(raw)` where `raw` is larger
unfoldable pub capped : ℕ → ℤ → ℤ
capped max_size raw = if ltb max_size (magnitude raw) then with_sign raw max_size else raw

abbrev pub lesser : ℕ → ℕ → ℕ
lesser a b = if ltb b a then b else a

abbrev pub side_text : ℤ → Text
side_text size = if is_positive size then codes "buy" else codes "sell"

abbrev leverage_of : Option Position → Option ℕ
leverage_of none = none
leverage_of (some p) = p.leverage

-- What a market gets: nothing, an action, a place among the skipped, or the end of the search.
pub data Outcome : Type 0 where
  settled : Outcome
  deferred stopped : Blocker → ℤ → Outcome
  acts : NextAction → ℤ → Outcome

abbrev pub action_of : Inputs → Text → ℤ → Bool → NextAction
action_of i market size reduce_only = record {
  desired_id = i.desired.desired_id;
  market = market;
  side = side_text size;
  size = DecimalText.finite (pos (magnitude size));
  reduce_only = reduce_only;
}

-- The preflight of an order of a signed size.
abbrev pub order_of : Inputs → Text → HyperliquidPerpRules → ℕ → ℤ → Bool → OrderRequest
order_of i market rules mid size reduce_only = record {
  rules = rules;
  requested_quantity = finite (pos (magnitude size));
  price = finite (pos mid);
  side = side_text size;
  max_order_notional_usd = finite (pos i.slot.max_order_notional_usd);
  reduce_only = reduce_only;
  current_position_size = finite (confirmed_size i market);
  leverage = leverage_of (look_up market i.follower_positions);
  available_collateral_usd = none;
}

abbrev pub all_there : Option ℕ → Option ℕ → Option (ℕ × ℕ)
all_there (some mid) (some decimals) = some (mid, decimals)
all_there _ _ = none

module _ (c : DecimalContext) where
  abbrev default_rules : Inputs → Text → ℕ → HyperliquidPerpRules
  default_rules i market decimals = record {
    market = market;
    sz_decimals = decimals;
    max_leverage = i.slot.max_leverage;
    minimum_notional_usd = 10 * one c;
    contract_size = one c;
    market_type = codes "perp";
  }

  abbrev pub rules_for : Inputs → Text → ℕ → Option HyperliquidPerpRules
  rules_for i market decimals = elim i.market_rules [
    | none ↦ some (default_rules i market decimals)
    | some rules ↦ look_up market rules
  ]

  -- `max_size`
  abbrev pub max_size : Inputs → ℕ → ℕ
  max_size i mid = c.over i.slot.max_order_notional_usd mid

  abbrev pub signed_size : Inputs → Text → ℕ → ℕ → ℤ
  signed_size i market mid decimals =
      quantize_size c
        (capped (max_size i mid) (raw_size (desired_size i market) (confirmed_size i market)))
        decimals

  -- `full_chunk`
  abbrev pub full_chunk : Inputs → Text → ℕ → ℕ → ℤ
  full_chunk i market mid decimals =
      let confirmed = confirmed_size i market in
      quantize_size c
        (with_sign (pos 0 -ℤ confirmed) (lesser (magnitude confirmed) (max_size i mid))) decimals

  -- `improves_target`
  abbrev pub improves : ℤ → ℤ → ℤ → Bool
  improves desired confirmed chunk =
      ltb (magnitude (desired -ℤ (confirmed +ℤ chunk))) (magnitude (desired -ℤ confirmed))

  abbrev pub placeable_order : Inputs → Text → HyperliquidPerpRules → ℕ → ℤ → Bool → Bool
  placeable_order i market rules mid size reduce_only =
      is_placeable (preflight c (order_of i market rules mid size reduce_only)).eligibility

  abbrev order_reason : Inputs → Text → HyperliquidPerpRules → ℕ → ℤ → Bool → Reason
  order_reason i market rules mid size reduce_only =
      (preflight c (order_of i market rules mid size reduce_only)).reason

  -- A reduction below the minimum: the whole position, as far as the cap allows.
  abbrev pub close_instead : Inputs → Text → HyperliquidPerpRules → ℕ → ℤ → ℤ → Outcome
  close_instead i market rules mid chunk residual =
      if not (improves (desired_size i market) (confirmed_size i market) chunk)
      then deferred close_moves_away residual
      else if not (placeable_order i market rules mid chunk true)
      then deferred (close_refused (order_reason i market rules mid chunk true)) residual
      else acts (action_of i market chunk true) residual

  abbrev pub place : Inputs → Text → HyperliquidPerpRules → ℕ → ℤ → ℤ → Bool → ℤ → Outcome
  place i market rules mid size chunk reduce_only residual =
      if placeable_order i market rules mid size reduce_only
      then acts (action_of i market size reduce_only) residual
      else if not reduce_only
      then deferred (sub_minimum_debt (order_reason i market rules mid size reduce_only)) residual
      else close_instead i market rules mid chunk residual

  abbrev pub with_rules : Inputs → Text → ℕ → ℕ → ℤ → Option HyperliquidPerpRules → Outcome
  with_rules i market mid decimals residual none = stopped no_order_rules residual
  with_rules i market mid decimals residual (some rules) =
      place i market rules mid (signed_size i market mid decimals)
        (full_chunk i market mid decimals)
        (reduces_only (desired_size i market) (confirmed_size i market)) residual

  abbrev pub with_metadata : Inputs → Text → ℤ → Option (ℕ × ℕ) → Outcome
  with_metadata i market residual none = stopped no_fresh_metadata residual
  with_metadata i market residual (some (mid, decimals)) =
      if is_zero (signed_size i market mid decimals)
      then deferred below_one_lot residual
      else with_rules i market mid decimals residual (rules_for i market decimals)

  -- The body of the loop, for one market.
  unfoldable pub judge : Inputs → Text → Outcome
  judge i market =
      let residual =
        desired_size i market -ℤ (confirmed_size i market +ℤ unresolved_size i market) in
      if is_zero residual
      then settled
      else if not (is_zero (unresolved_size i market))
      then stopped unresolved_action residual
      else with_metadata i market residual
          (all_there (usable_mid (look_up market i.mids)) (look_up market i.size_decimals))

  abbrev first_residual : List (Text × Blocker) → ℤ → ℤ → ℤ
  first_residual [] first residual = residual
  first_residual (b ∷ bs) first residual = first

  abbrev nothing_left : List (Text × Blocker) → ℤ → ActionDecision
  nothing_left [] first = record {
    action = none;
    residual = pos 0;
    blocker = none;
    skipped_blockers = [];
  }
  nothing_left (b ∷ bs) first = record {
    action = none;
    residual = first;
    blocker = some b;
    skipped_blockers = b ∷ bs;
  }

  abbrev pub resume :
      Text
      → List (Text × Blocker)
      → ℤ
      → (List (Text × Blocker) → ℤ → ActionDecision)
      → Outcome
      → ActionDecision
  resume market skipped first next settled = next skipped first
  resume market skipped first next (deferred b residual) =
      next (skipped ++ ((market, b) ∷ [])) (first_residual skipped first residual)
  resume market skipped first next (stopped b residual) = record {
    action = none;
    residual = residual;
    blocker = some (market, b);
    skipped_blockers = [];
  }
  resume market skipped first next (acts a residual) = record {
    action = some a;
    residual = residual;
    blocker = none;
    skipped_blockers = skipped;
  }

  -- The loop, with `skipped` and `first_blocked_residual`.
  unfoldable pub choose_from : Inputs → List Text → List (Text × Blocker) → ℤ → ActionDecision
  choose_from i [] skipped first = nothing_left skipped first
  choose_from i (m ∷ ms) skipped first = resume m skipped first (choose_from i ms) (judge i m)

  -- `choose_next_action`
  unfoldable pub choose_next_action : Inputs → ActionDecision
  choose_next_action i = choose_from i (ordered_markets i) [] (pos 0)

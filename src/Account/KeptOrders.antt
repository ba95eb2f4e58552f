-- ===== src/Account/KeptOrders.antt =====
-- Which calls of the account stream leave the open orders alone.
use hyperliquid_copytrader.Base.{
  ℕ, Bool, true, false, not, ◌&&◌, List, [], ◌∷◌, Option, leb, ◌≡◌, refl, subst, arith,
}
use hyperliquid_copytrader.Base.Int.{ℤ, pos, negsuc}
use hyperliquid_copytrader.Base.Text.{Text, codes}
use hyperliquid_copytrader.Journal.Records.{ok, require, >>=-returns, ok_injective}
use hyperliquid_copytrader.Wire.Json as Wire
use hyperliquid_copytrader.Wire.Json.{Json, Items, Fields, get}
use hyperliquid_copytrader.Account.Records.{
  FillRecord, Component, twap_fills, collateral, time_of, bad_data, bad_rows, missing_total,
  no_markets, collateral_backwards,
}
use hyperliquid_copytrader.Account.Chain.{Positions}
use hyperliquid_copytrader.Account.Memory.{Entry, unique_records, new_records}
use hyperliquid_copytrader.Account.Rows.{parse_decimal, present}
use hyperliquid_copytrader.Account.Stream.{
  Stream, MutableAccount, Role, of_source, of_follower, begin_connection, set_market_scope,
  note_connection_activity, validate_frame, market_scope, scope_dexes, no_scope, is_standard,
}
use hyperliquid_copytrader.Account.Fills.{
  FillsUpdate, account_for, set_account, fields_of, items_of, role_for_data, or_else,
  next_positions, with_positions, observe_dexes, with_fills, reduce_fills, read_fills, apply_fills,
  apply_twap_fills, wrapped_fills, normalized,
}
use hyperliquid_copytrader.Account.Spot.{
  ChannelUpdate, read_spot, reduce_spot, apply_spot, replace_collateral, consistent, hold_of,
  observed_at,
}
use hyperliquid_copytrader.Account.States.{parse_all_dexs}
use hyperliquid_copytrader.Account.Snapshots.{
  DexPositions, apply_positions, replace_positions, read_states, sort_dexes, is_source, check_dexes,
  perp_equities, with_equity,
}

-- The follower has the open orders it had.
abbrev pub KeepsOrders : Stream → Stream → Type 0
KeepsOrders s t = t.follower.open_orders ≡ s.follower.open_orders

set_account-KeepsOrders :
    (role : Role) (a : MutableAccount) (s : Stream)
    → a.open_orders ≡ (account_for role s).open_orders
    → KeepsOrders s (set_account role a s)
set_account-KeepsOrders of_source a s h = refl
set_account-KeepsOrders of_follower a s h = h

positions_keep :
    (is_snapshot : Bool) (at : ℕ) (ps : Positions) (new : List FillRecord) (a b : MutableAccount)
    → with_positions is_snapshot at ps new a ≡ ok b
    → b.open_orders ≡ a.open_orders
positions_keep true at ps new a b h = rw (← ok_injective _ b h) refl
positions_keep false at ps [] a b h = rw (← ok_injective _ b h) refl
positions_keep false at ps (r ∷ rs) a b h =
    let (_, _, h₁) = >>=-returns (observe_dexes (r ∷ rs) a.position_observed_ms_by_dex) _ h in
    rw (← ok_injective _ b h₁) refl

remembered_keep :
    (role : Role) (filled : MutableAccount) (es : List Entry) (s : Stream)
    → filled.open_orders ≡ (account_for role s).open_orders
    → KeepsOrders s (set_account role filled (record s { fill_fingerprints = es }))
remembered_keep of_source filled es s h = refl
remembered_keep of_follower filled es s h = h

pub reduce_fills-KeepsOrders :
    (component : Component) (at : ℕ) (account : Text) (role : Role) (is_snapshot : Bool)
    (records : List FillRecord) (s t : Stream) (update : FillsUpdate)
    → reduce_fills component at account role is_snapshot records s ≡ ok (t, update)
    → KeepsOrders s t
unfolding reduce_fills
reduce_fills-KeepsOrders component at account role is_snapshot records s t update h =
    let state = account_for role s in
    let (unique, _, h₁) = >>=-returns (unique_records [] records) _ h in
    let (new, _, h₂) = >>=-returns (new_records s.fill_fingerprints unique) _ h₁ in
    let (next, _, h₃) = >>=-returns (next_positions is_snapshot state.positions new) _ h₂ in
    let (moved, e, h₄) = >>=-returns (with_positions is_snapshot at next new state) _ h₃ in
    let kept = positions_keep is_snapshot at next new state moved e in
    let filled =
      with_fills s.fill_dedupe_capacity component at is_snapshot records unique new moved in
    subst (λ r. KeepsOrders s r.0) (ok_injective _ (t, update) h₄)
      (remembered_keep role filled _ s kept)

pub begin_connection-orders :
    (at : ℤ) (s t : Stream) → begin_connection at s ≡ ok t → t.follower.open_orders ≡ []
unfolding begin_connection
begin_connection-orders (negsuc n) s t h = absurd (ground arith)
begin_connection-orders (pos n) s t h = rw (← ok_injective _ t h) refl

pub note_connection_activity-KeepsOrders :
    (epoch : ℕ) (at : ℤ) (s t : Stream)
    → note_connection_activity epoch at s ≡ ok t
    → KeepsOrders s t
unfolding note_connection_activity
note_connection_activity-KeepsOrders epoch at s t h =
    let (_, _, h₁) = >>=-returns (validate_frame epoch at s) _ h in rw (← ok_injective _ t h₁) refl

pub set_market_scope-KeepsOrders :
    (source_markets follower_markets : Option (List Text)) (s t : Stream)
    → set_market_scope source_markets follower_markets s ≡ ok t
    → KeepsOrders s t
unfolding set_market_scope
set_market_scope-KeepsOrders source_markets follower_markets s t h =
    let (scope, _, h₁) = >>=-returns (market_scope source_markets) _ h in
    let (_, _, h₂) =
      >>=-returns (require (not (is_standard s.source_account_mode && no_scope scope)) no_markets) _
        h₁ in
    let (_, _, h₃) = >>=-returns (scope_dexes scope) _ h₂ in
    let (_, _, h₄) = >>=-returns (market_scope follower_markets) _ h₃ in
    rw (← ok_injective _ t h₄) refl

equity_keeps :
    (standard : Bool) (at : ℕ) (ds : List DexPositions) (dexes : List Text)
    (found : List (Text × ℤ)) (a : MutableAccount)
    → (with_equity standard at ds dexes found a).open_orders ≡ a.open_orders
equity_keeps true at ds dexes found a = refl
equity_keeps false at ds dexes found a = refl

replace_positions-orders :
    (standard : Bool) (at : ℕ) (dexes : List Text) (ps : Positions) (ds : List DexPositions)
    (a b : MutableAccount)
    → replace_positions standard at dexes ps ds a ≡ ok b
    → b.open_orders ≡ a.open_orders
unfolding replace_positions
replace_positions-orders standard at dexes ps ds a b h =
    let (_, _, h₁) = >>=-returns (check_dexes a ds) _ h in
    let (found, _, h₂) = >>=-returns (perp_equities standard ps ds dexes) _ h₁ in
    rw (← ok_injective _ b h₂) (equity_keeps standard at ds dexes found a)

replace_collateral-orders :
    (total hold observed_ms at : ℕ) (a b : MutableAccount)
    → replace_collateral total hold observed_ms at a ≡ ok b
    → b.open_orders ≡ a.open_orders
unfolding replace_collateral
replace_collateral-orders total hold observed_ms at a b h =
    let (_, _, h₁) =
      >>=-returns
        (require (leb (or_else (time_of collateral a.component_observed_ms) 0) observed_ms)
          collateral_backwards)
        _ h in
    rw (← ok_injective _ b h₁) refl

module _ (shown : Json → Text) (int_text : Text → Option ℤ) where
  pub apply_fills-KeepsOrders :
      (component : Component) (at : ℕ) (payload : Json) (s t : Stream) (update : FillsUpdate)
      → apply_fills shown int_text component at payload s ≡ ok (t, update)
      → KeepsOrders s t
  unfolding apply_fills
  apply_fills-KeepsOrders component at payload s t update h =
      let (f, _, h₁) = >>=-returns (read_fills shown int_text component at payload s) _ h in
      reduce_fills-KeepsOrders component at f.account f.role f.is_snapshot f.records s t update h₁

  pub apply_twap_fills-KeepsOrders :
      (at : ℕ) (payload : Json) (s t : Stream) (update : FillsUpdate)
      → apply_twap_fills shown int_text at payload s ≡ ok (t, update)
      → KeepsOrders s t
  unfolding apply_twap_fills
  apply_twap_fills-KeepsOrders at payload s t update h =
      let (fs, _, h₁) = >>=-returns (fields_of bad_data payload) _ h in
      let (rows, _, h₂) = >>=-returns (items_of bad_rows (get (codes "twapSliceFills") fs)) _ h₁ in
      let (fill_rows, _, h₃) = >>=-returns (wrapped_fills rows) _ h₂ in
      apply_fills-KeepsOrders twap_fills at (normalized fs fill_rows) s t update h₃

  pub apply_spot-KeepsOrders :
      (at : ℕ) (payload : Json) (s t : Stream) (update : ChannelUpdate)
      → apply_spot shown int_text at payload s ≡ ok (t, update)
      → KeepsOrders s t
  unfolding apply_spot reduce_spot
  apply_spot-KeepsOrders at payload s t update h =
      let (f, _, h₀) = >>=-returns (read_spot shown int_text payload s) _ h in
      let (raw, _, h₁) =
        >>=-returns (present missing_total (Wire.look_up (codes "total") f.usdc)) _ h₀ in
      let (total, _, h₂) = >>=-returns (parse_decimal raw) _ h₁ in
      let (hold, _, h₃) = >>=-returns (hold_of (Wire.look_up (codes "hold") f.usdc)) _ h₂ in
      let (sizes, _, h₄) = >>=-returns (consistent total hold) _ h₃ in
      let (observed_ms, _, h₅) =
        >>=-returns
          (observed_at shown int_text at (Wire.look_up (codes "time") f.payload)
            (Wire.look_up (codes "time") f.outer))
          _ h₄ in
      let state = account_for f.role s in
      let (b, made, h₆) =
        >>=-returns (replace_collateral sizes.0 sizes.1 observed_ms at state) _ h₅ in
      let kept = replace_collateral-orders sizes.0 sizes.1 observed_ms at state b made in
      subst (λ r. KeepsOrders s r.0) (ok_injective _ (t, update) h₆)
        (set_account-KeepsOrders f.role b s kept)

  pub apply_positions-KeepsOrders :
      (one at : ℕ) (payload : Json) (s t : Stream) (update : ChannelUpdate)
      → apply_positions one shown int_text at payload s ≡ ok (t, update)
      → KeepsOrders s t
  unfolding apply_positions
  apply_positions-KeepsOrders one at payload s t update h =
      let (fs, _, h₁) = >>=-returns (fields_of bad_data payload) _ h in
      let (who, _, h₂) = >>=-returns (role_for_data shown int_text fs s) _ h₁ in
      let (states, _, h₃) = >>=-returns (parse_all_dexs shown int_text who.0 fs) _ h₂ in
      let (read, _, h₄) =
        >>=-returns (read_states one shown int_text [] (sort_dexes states)) _ h₃ in
      let state = account_for who.1 s in
      let standard = is_source who.1 && is_standard s.source_account_mode in
      let (b, made, h₅) =
        >>=-returns (replace_positions standard at s.source_dexes read.0 read.1 state) _ h₄ in
      let kept = replace_positions-orders standard at s.source_dexes read.0 read.1 state b made in
      subst (λ r. KeepsOrders s r.0) (ok_injective _ (t, update) h₅)
        (set_account-KeepsOrders who.1 b s kept)

-- ===== src/Account/Sessions.antt =====
-- A whole life of an account stream, and the open orders in it.
use hyperliquid_copytrader.Base.{ℕ, Bool, not, ◌&&◌, List, Option, leb, ◌≡◌, refl, subst}
use hyperliquid_copytrader.Base.Int.{ℤ}
use hyperliquid_copytrader.Base.Text.{Text, codes, text_eq, strip, lower}
use hyperliquid_copytrader.Journal.Records.{ok, >>=-returns, ok_injective, require}
use hyperliquid_copytrader.Wire.Json.{Json, get}
use hyperliquid_copytrader.Account.Records.{
  fills, bad_message, same_account, bad_capacity, no_markets,
}
use hyperliquid_copytrader.Account.Rows.{account_of, text_or_empty}
use hyperliquid_copytrader.Account.Stream.{
  Stream, empty_account, account_stream, begin_connection, note_connection_activity,
  set_market_scope, validate_frame, mode_of, market_scope, scope_dexes, no_scope, is_standard,
}
use hyperliquid_copytrader.Account.Fills.{fields_of, apply_fills, apply_twap_fills}
use hyperliquid_copytrader.Account.Spot.{apply_spot}
use hyperliquid_copytrader.Account.Snapshots.{apply_positions}
use hyperliquid_copytrader.Account.OpenOrders.{apply_open_orders, apply_order_updates}
use hyperliquid_copytrader.Account.Distinct.{
  AreDistinct, apply_open_orders-AreDistinct, apply_order_updates-AreDistinct,
}
use hyperliquid_copytrader.Account.Apply.{
  Update, Channel, all_dexs_clearinghouse_state, spot_state, open_orders, order_updates, user_fills,
  user_twap_slice_fills, channel_of, reduce, apply,
}
use hyperliquid_copytrader.Account.KeptOrders.{
  KeepsOrders, begin_connection-orders, note_connection_activity-KeepsOrders,
  set_market_scope-KeepsOrders, apply_fills-KeepsOrders, apply_twap_fills-KeepsOrders,
  apply_spot-KeepsOrders, apply_positions-KeepsOrders,
}

OrdersAreDistinct : Stream → Type 0
OrdersAreDistinct s = AreDistinct s.follower.open_orders

carried : (s t : Stream) → KeepsOrders s t → OrdersAreDistinct s → OrdersAreDistinct t
unfolding OrdersAreDistinct
carried s t e h = rw e h

new_account :
    (source follower mode_text : Text) (source_markets follower_markets : Option (List Text))
    (outside : Bool) (capacity : ℕ) (s : Stream)
    → account_stream source follower mode_text source_markets follower_markets outside capacity
      ≡ ok s
    → s.follower ≡ empty_account
unfolding account_stream
new_account source follower mode_text source_markets follower_markets outside capacity s h =
    let (source_address, _, h₁) = >>=-returns (account_of source) _ h in
    let (follower_address, _, h₂) = >>=-returns (account_of follower) _ h₁ in
    let (_, _, h₃) =
      >>=-returns (require (not (text_eq source_address follower_address)) same_account) _ h₂ in
    let (_, _, h₄) = >>=-returns (require (leb 1 capacity) bad_capacity) _ h₃ in
    let (mode, _, h₅) = >>=-returns (mode_of (lower (strip mode_text))) _ h₄ in
    let (source_scope, _, h₆) = >>=-returns (market_scope source_markets) _ h₅ in
    let (follower_scope, _, h₇) = >>=-returns (market_scope follower_markets) _ h₆ in
    let (_, _, h₈) =
      >>=-returns (require (not (is_standard mode && no_scope source_scope)) no_markets) _ h₇ in
    let (dexes, _, h₉) = >>=-returns (scope_dexes source_scope) _ h₈ in
    rw (← ok_injective _ s h₉) refl

module _ (one : ℕ) (shown : Json → Text) (int_text : Text → Option ℤ) where
  -- A stream that was constructed, and the calls that returned since.
  pub data Session : Stream → Type 0 where
    created :
        {s : Stream} (source follower mode_text : Text)
        (source_markets follower_markets : Option (List Text)) (outside : Bool) (capacity : ℕ)
        → account_stream source follower mode_text source_markets follower_markets outside capacity
          ≡ ok s
        → Session s
    connected : {s t : Stream} (at : ℤ) → Session s → begin_connection at s ≡ ok t → Session t
    noted :
        {s t : Stream} (epoch : ℕ) (at : ℤ)
        → Session s
        → note_connection_activity epoch at s ≡ ok t
        → Session t
    rescoped :
        {s t : Stream} (source_markets follower_markets : Option (List Text))
        → Session s
        → set_market_scope source_markets follower_markets s ≡ ok t
        → Session t
    applied :
        {s t : Stream} (message : Json) (epoch : ℕ) (at : ℤ) (update : Update)
        → Session s
        → apply one shown int_text message epoch at s ≡ ok (t, update)
        → Session t

  reduce-OrdersAreDistinct :
      (channel : Channel) (at : ℕ) (payload : Json) (s : Stream) (r : Stream × Update)
      → OrdersAreDistinct s
      → reduce one shown int_text channel at payload s ≡ ok r
      → OrdersAreDistinct r.0
  unfolding OrdersAreDistinct
  reduce-OrdersAreDistinct all_dexs_clearinghouse_state at payload s r d h =
      let (u, e, h₁) = >>=-returns (apply_positions one shown int_text at payload s) _ h in
      let kept = apply_positions-KeepsOrders shown int_text one at payload s u.0 u.1 e in
      subst (λ x. AreDistinct x.0.follower.open_orders) (ok_injective _ r h₁) (rw kept d)
  reduce-OrdersAreDistinct spot_state at payload s r d h =
      let (u, e, h₁) = >>=-returns (apply_spot shown int_text at payload s) _ h in
      let kept = apply_spot-KeepsOrders shown int_text at payload s u.0 u.1 e in
      subst (λ x. AreDistinct x.0.follower.open_orders) (ok_injective _ r h₁) (rw kept d)
  reduce-OrdersAreDistinct open_orders at payload s r d h =
      let (u, e, h₁) = >>=-returns (apply_open_orders shown int_text at payload s) _ h in
      subst (λ x. AreDistinct x.0.follower.open_orders) (ok_injective _ r h₁)
        (apply_open_orders-AreDistinct shown int_text at payload s u.0 u.1 e)
  reduce-OrdersAreDistinct order_updates at payload s r d h =
      let (u, e, h₁) = >>=-returns (apply_order_updates shown int_text at payload s) _ h in
      subst (λ x. AreDistinct x.0.follower.open_orders) (ok_injective _ r h₁)
        (apply_order_updates-AreDistinct shown int_text at payload s u.0 u.1 d e)
  reduce-OrdersAreDistinct user_fills at payload s r d h =
      let (u, e, h₁) = >>=-returns (apply_fills shown int_text fills at payload s) _ h in
      let kept = apply_fills-KeepsOrders shown int_text fills at payload s u.0 u.1 e in
      subst (λ x. AreDistinct x.0.follower.open_orders) (ok_injective _ r h₁) (rw kept d)
  reduce-OrdersAreDistinct user_twap_slice_fills at payload s r d h =
      let (u, e, h₁) = >>=-returns (apply_twap_fills shown int_text at payload s) _ h in
      let kept = apply_twap_fills-KeepsOrders shown int_text at payload s u.0 u.1 e in
      subst (λ x. AreDistinct x.0.follower.open_orders) (ok_injective _ r h₁) (rw kept d)

  apply-OrdersAreDistinct :
      (message : Json) (epoch : ℕ) (at : ℤ) (s t : Stream) (update : Update)
      → OrdersAreDistinct s
      → apply one shown int_text message epoch at s ≡ ok (t, update)
      → OrdersAreDistinct t
  unfolding apply OrdersAreDistinct
  apply-OrdersAreDistinct message epoch at s t update d h =
      let (time, _, h₁) = >>=-returns (validate_frame epoch at s) _ h in
      let (fs, _, h₂) = >>=-returns (fields_of bad_message message) _ h₁ in
      let (channel, _, h₃) =
        >>=-returns (channel_of (text_or_empty shown int_text (get (codes "channel") fs))) _ h₂ in
      let (r, e, h₄) =
        >>=-returns (reduce one shown int_text channel time (get (codes "data") fs) s) _ h₃ in
      subst (λ x. AreDistinct x.0.follower.open_orders) (ok_injective _ (t, update) h₄)
        (reduce-OrdersAreDistinct channel time (get (codes "data") fs) s r d e)

  -- Whatever frames of all six channels, connections and scopes an account stream has accepted since it was
  -- new: among the follower's open orders no two have the same oid or the same cloid.
  pub Session-AreDistinct : (s : Stream) → Session s → AreDistinct s.follower.open_orders
  unfolding OrdersAreDistinct
  Session-AreDistinct s
        (created source follower mode_text source_markets follower_markets outside capacity e) =
      rw
        (new_account source follower mode_text source_markets follower_markets outside capacity s e)
        tt
  Session-AreDistinct s (connected {s = r} at w e) = rw (begin_connection-orders at r s e) tt
  Session-AreDistinct s (noted {s = r} epoch at w e) =
      carried r s (note_connection_activity-KeepsOrders epoch at r s e) (Session-AreDistinct r w)
  Session-AreDistinct s (rescoped {s = r} source_markets follower_markets w e) =
      carried r s (set_market_scope-KeepsOrders source_markets follower_markets r s e)
        (Session-AreDistinct r w)
  Session-AreDistinct s (applied {s = r} message epoch at update w e) =
      apply-OrdersAreDistinct message epoch at r s update (Session-AreDistinct r w) e

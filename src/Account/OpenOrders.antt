-- ===== src/Account/OpenOrders.antt =====
-- `_apply_open_orders` and `_apply_order_updates` of `AccountStream` (account_stream.py).
use hyperliquid_copytrader.Base.{
  ℕ, Bool, true, false, not, ◌||◌, List, [], ◌∷◌, Option, some, if◌then◌else◌, max,
}
use hyperliquid_copytrader.Base.Int.{ℤ}
use hyperliquid_copytrader.Base.Text.{Text, codes, text_eq, strip, lower}
use hyperliquid_copytrader.Journal.Records.{Result, ok, err, ◌>>=◌, ◌>>◌, require}
use hyperliquid_copytrader.Wire.Json as Wire
use hyperliquid_copytrader.Wire.Json.{
  Json, null, bool, number, string, array, object, Items, nil, cons, Fields, get, truthy,
}
use hyperliquid_copytrader.Account.Records.{
  AccountStreamError, OpenOrder, open_orders, time_of, set_time, bad_data, bad_rows, bad_row,
  not_follower, unconfigured_account, missing_order, missing_status, different_orders,
  unknown_status,
}
use hyperliquid_copytrader.Account.Rows.{account_of, positive_int, text_or_empty}
use hyperliquid_copytrader.Account.Stream.{
  Stream, MutableAccount, Role, of_source, of_follower, is_known,
}
use hyperliquid_copytrader.Account.Fills.{
  fields_of, items_of, role_for_data, set_account, user_text,
}
use hyperliquid_copytrader.Account.Spot.{ChannelUpdate}
use hyperliquid_copytrader.Account.Orders.{
  answers_to, add_order, terminal_order_status, parse_order_rows, parse_one_order, order_identity,
  first_present,
}

abbrev pub follower_only : Role → Result AccountStreamError (Unit {0})
follower_only of_source = err not_follower
follower_only of_follower = ok tt

abbrev pub with_orders : ℕ → List OpenOrder → MutableAccount → MutableAccount
with_orders received_ms orders a = record a {
  open_orders = orders;
  component_received_ms = set_time open_orders (some received_ms) a.component_received_ms;
  component_observed_ms = set_time open_orders (some received_ms) a.component_observed_ms;
}

-- The orders that the oid or the cloid identifies.
abbrev pub matching : Option ℕ → Option Text → List OpenOrder → List OpenOrder
matching oid cloid [] = []
matching oid cloid (o ∷ os) =
    let rest = matching oid cloid os in if answers_to oid cloid o then o ∷ rest else rest

-- The others; an order that equals a matching one matches too.
abbrev pub unmatched : Option ℕ → Option Text → List OpenOrder → List OpenOrder
unmatched oid cloid [] = []
unmatched oid cloid (o ∷ os) =
    let rest = unmatched oid cloid os in if answers_to oid cloid o then rest else o ∷ rest

abbrev pub at_most_one : List OpenOrder → Bool
at_most_one (o ∷ p ∷ os) = false
at_most_one _ = true

-- The orders after an update with the status, of an order that was taken out of `others`.
unfoldable pub with_status :
    Text
    → Result AccountStreamError OpenOrder
    → List OpenOrder
    → Result AccountStreamError (List OpenOrder)
with_status status parsed others =
    if text_eq status (codes "open")
    then (do order ← parsed; add_order others order)
    else if terminal_order_status status
    then ok others
    else err unknown_status

-- The account with the updated orders: only a received baseline gets new times.
unfoldable pub with_updates : ℕ → ℕ → List OpenOrder → MutableAccount → MutableAccount
with_updates received_ms latest_ms orders a =
    if is_known (time_of open_orders a.component_received_ms)
    then record a {
      open_orders = orders;
      component_received_ms = set_time open_orders (some received_ms) a.component_received_ms;
      component_observed_ms = set_time open_orders (some latest_ms) a.component_observed_ms;
    }
    else record a { open_orders = orders }

-- What a row of `orderUpdates` says.
pub record OrderUpdate : Type 0 where
  pub order : Fields
  pub outer : Fields
  pub status : Text
  pub status_ms : ℕ
  pub oid : Option ℕ
  pub cloid : Option Text

module _ (shown : Json → Text) (int_text : Text → Option ℤ) where
  -- `_apply_open_orders`
  unfoldable pub apply_open_orders :
      ℕ → Json → Stream → Result AccountStreamError (Stream × ChannelUpdate)
  apply_open_orders received_ms data_value s = do
    fs ← fields_of bad_data data_value
    who ← role_for_data shown int_text fs s
    follower_only who.1
    rows ← items_of bad_rows (get (codes "orders") fs)
    orders ← parse_order_rows shown int_text fs received_ms rows
    ok (
      set_account of_follower (with_orders received_ms orders s.follower) s,
      record {
        account = who.0;
        role = of_follower;
        connection_epoch = s.connection_epoch;
        initial_snapshot = not (is_known (time_of open_orders s.follower.component_received_ms));
      },
    )

  -- The user of a frame or a row is left out or the follower.
  abbrev follower_or_unnamed : Stream → Fields → Result AccountStreamError (Unit {0})
  follower_or_unnamed s fs =
      if not (truthy (get (codes "user") fs) || truthy (get (codes "userAddress") fs))
      then ok tt
      else (do
        account ← account_of (user_text shown int_text fs)
        require (text_eq account s.follower_address) unconfigured_account)

  abbrev pub updates_of : Stream → Json → Result AccountStreamError Items
  updates_of s (object fs) = do
    follower_or_unnamed s fs
    items_of bad_rows (first_present (Wire.look_up (codes "updates") fs) (get (codes "orders") fs))
  updates_of s v = items_of bad_rows v

  unfoldable pub read_update : Stream → Json → Result AccountStreamError OrderUpdate
  read_update s row = do
    fs ← fields_of bad_row row
    follower_or_unnamed s fs
    order ← fields_of missing_order (get (codes "order") fs)
    let status = lower (strip (text_or_empty shown int_text (get (codes "status") fs)))
    require (not (text_eq status [])) missing_status
    status_ms ← positive_int shown int_text (get (codes "statusTimestamp") fs)
    name ← order_identity shown int_text order
    ok (record {
      order = order;
      outer = fs;
      status = status;
      status_ms = status_ms;
      oid = name.0;
      cloid = name.1;
    })

  -- The orders after one update.
  unfoldable pub update_orders :
      OrderUpdate → List OpenOrder → Result AccountStreamError (List OpenOrder)
  update_orders u orders = do
    require (at_most_one (matching u.oid u.cloid orders)) different_orders
    with_status u.status (parse_one_order shown int_text u.outer u.status_ms u.order)
        (unmatched u.oid u.cloid orders)

  -- The loop over the updates, with `next_orders` and `latest_status_ms`.
  abbrev pub update_all :
      Stream → ℕ → List OpenOrder → Items → Result AccountStreamError (List OpenOrder × ℕ)
  update_all s latest orders nil = ok (orders, latest)
  update_all s latest orders (cons row rows) = do
    u ← read_update s row
    next ← update_orders u orders
    update_all s (max latest u.status_ms) next rows

  -- `_apply_order_updates`
  unfoldable pub apply_order_updates :
      ℕ → Json → Stream → Result AccountStreamError (Stream × ChannelUpdate)
  apply_order_updates received_ms data_value s = do
    updates ← updates_of s data_value
    next ← update_all s received_ms s.follower.open_orders updates
    ok (
      set_account of_follower (with_updates received_ms next.1 next.0 s.follower) s,
      record {
        account = s.follower_address;
        role = of_follower;
        connection_epoch = s.connection_epoch;
        initial_snapshot = false;
      },
    )

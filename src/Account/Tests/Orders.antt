-- ===== src/Account/Tests/Orders.antt =====
-- Open orders on concrete frames.
use hyperliquid_copytrader.Base.{ℕ, ◌≡◌, refl, false, [], ◌∷◌, Option, none, some, map}
use hyperliquid_copytrader.Base.Int.{pos}
use hyperliquid_copytrader.Base.Text.{Text, codes}
use hyperliquid_copytrader.Journal.Records.{Result, ok, err, validate_cloid}
use hyperliquid_copytrader.Wire.Json.{Json, array, object, nil, cons, Items, Fields, end, field}
use hyperliquid_copytrader.Account.Records.{AccountStreamError, duplicate_order}
use hyperliquid_copytrader.Account.Stream.{Stream}
use hyperliquid_copytrader.Account.Fills.{apply_twap_fills}
use hyperliquid_copytrader.Account.Orders.{
  answers_to, add_order, terminal_order_status, parse_open_order, parse_open_orders,
  parse_order_rows, parse_one_order, order_identity,
}
use hyperliquid_copytrader.Account.OpenOrders.{
  with_status, with_updates, read_update, update_orders, apply_open_orders, apply_order_updates,
}
use hyperliquid_copytrader.Account.Apply.{Update, of_fills, apply}
use hyperliquid_copytrader.Account.Distinct.{AreDistinct}
use hyperliquid_copytrader.Account.Sessions.{
  Session, created, connected, applied, Session-AreDistinct,
}
use hyperliquid_copytrader.Account.Tests.{
  every_clause, int_text, shown, word, quanta, source_text, follower_text, empty_stream,
  empty_update, begun,
}

order_clauses : Unit {0}
unfolding every_clause answers_to add_order terminal_order_status parse_open_order parse_open_orders
    parse_order_rows parse_one_order order_identity with_status with_updates read_update
    update_orders apply_open_orders apply_order_updates apply apply_twap_fills validate_cloid
order_clauses = tt

abbrev cloid_text : Text
cloid_text = codes "0x000000000000000000000000000000aB"

abbrev named_order : Fields → Fields
named_order rest = field (codes "coin") (word (codes "btc")) (
    field (codes "side") (word (codes "A"))
      (field (codes "sz") (quanta (pos 5)) (field (codes "limitPx") (quanta (pos 9)) rest)))

abbrev order_by_oid : Text → Fields
order_by_oid oid = named_order (field (codes "oid") (word oid) end)

abbrev order_by_cloid : Fields
order_by_cloid = named_order (field (codes "cloid") (word cloid_text) end)

abbrev data_frame : Text → Json → Json
data_frame channel value =
    object (field (codes "channel") (word channel) (field (codes "data") value end))

abbrev orders_frame : Items → Json
orders_frame rows =
    data_frame (codes "openOrders")
      (object (field (codes "user") (word follower_text) (field (codes "orders") (array rows) end)))

abbrev update_row : Text → Fields → Json
update_row status order = object (
    field (codes "status") (word status) (
      field (codes "statusTimestamp") (word (codes "66"))
        (field (codes "order") (object order) end)))

-- Order 11 is cancelled, and the order with the client's id is opened.
abbrev updates_frame : Json
updates_frame = data_frame (codes "orderUpdates") (
    array (
      cons (update_row (codes "reduceOnlyCanceled") (order_by_oid (codes "11")))
        (cons (update_row (codes "open") order_by_cloid) nil)))

abbrev or_updated : Result AccountStreamError (Stream × Update) → Stream × Update
or_updated (ok r) = r
or_updated (err e) = (empty_stream, of_fills empty_update)

abbrev listed : Stream × Update
listed = or_updated (
    apply 1 shown int_text
      (orders_frame
        (cons (object (order_by_oid (codes "11"))) (cons (object (order_by_oid (codes "12"))) nil)))
      1 (pos 5) begun)

abbrev updated : Stream × Update
updated = or_updated (apply 1 shown int_text updates_frame 1 (pos 6) listed.0)

same_oid_twice :
    apply 1 shown int_text
      (orders_frame
        (cons (object (order_by_oid (codes "11"))) (cons (object (order_by_oid (codes "11"))) nil)))
      1
      (pos 5)
      begun
    ≡ err duplicate_order
unfolding order_clauses
same_oid_twice = refl

names_left :
    map {B = Option ℕ × Option Text} (λ o. (o.oid, o.cloid)) updated.0.follower.open_orders
    ≡ (some 12, none) ∷ (none, some (codes "0x000000000000000000000000000000ab")) ∷ []
unfolding order_clauses
names_left = refl

two_frames_later : Session 1 shown int_text updated.0
unfolding order_clauses
two_frames_later =
    applied updates_frame 1 (pos 6) updated.1
      (applied
        (orders_frame (
          cons (object (order_by_oid (codes "11")))
            (cons (object (order_by_oid (codes "12"))) nil)))
        1 (pos 5) listed.1
        (connected (pos 4)
          (created source_text follower_text (codes "unified") none none false 100 refl) refl)
        refl)
      refl

Session-AreDistinct_example : AreDistinct updated.0.follower.open_orders
Session-AreDistinct_example = Session-AreDistinct 1 shown int_text updated.0 two_frames_later

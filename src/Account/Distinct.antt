-- ===== src/Account/Distinct.antt =====
-- The follower's open orders keep distinct names.
use hyperliquid_copytrader.Base.{
  ℕ, false, not, List, [], ◌∷◌, ◌++◌, Option, ◌≡◌, All, arith, inl, inr, Bool-cases, subst, max,
}
use hyperliquid_copytrader.Base.Int.{ℤ}
use hyperliquid_copytrader.Base.Text.{Text, codes, text_eq}
use hyperliquid_copytrader.Journal.Records.{
  Result, ok, require, require-ok, >>=-returns, ok_injective,
}
use hyperliquid_copytrader.Wire.Json.{Json, Items, nil, cons, Fields, get}
use hyperliquid_copytrader.Account.Records.{
  AccountStreamError, OpenOrder, bad_data, bad_rows, duplicate_order, different_orders,
}
use hyperliquid_copytrader.Account.Stream.{Stream, MutableAccount}
use hyperliquid_copytrader.Account.Fills.{fields_of, items_of, role_for_data}
use hyperliquid_copytrader.Account.Spot.{ChannelUpdate}
use hyperliquid_copytrader.Account.Orders.{
  answers_to, shares_name, any_shares, add_order, terminal_order_status, parse_order_value,
  parse_rows_after, parse_order_rows, parse_one_order,
}
use hyperliquid_copytrader.Account.OpenOrders.{
  with_updates, matching, unmatched, at_most_one, with_status, follower_only, updates_of,
  read_update, update_orders, update_all, apply_open_orders, apply_order_updates,
}

-- No later order has the oid or the cloid of an earlier one.
abbrev pub AreDistinct : List OpenOrder → Type 0
AreDistinct [] = Unit
AreDistinct (o ∷ os) = All (λ p. shares_name p o ≡ false) os × AreDistinct os

All-snoc :
    (P : OpenOrder → Type 0) (os : List OpenOrder) (c : OpenOrder)
    → All P os
    → P c
    → All P (os ++ (c ∷ []))
All-snoc P [] c h p = (p, tt)
All-snoc P (o ∷ os) c (q, h) p = (q, All-snoc P os c h p)

snoc-AreDistinct :
    (os : List OpenOrder) (c : OpenOrder)
    → AreDistinct os
    → any_shares c os ≡ false
    → AreDistinct (os ++ (c ∷ []))
snoc-AreDistinct [] c h e = (tt, tt)
snoc-AreDistinct (o ∷ os) c (q, h) e = (
  All-snoc (λ p. shares_name p o ≡ false) os c q (ground arith),
  snoc-AreDistinct os c h (ground arith),
)

pub add_order-AreDistinct :
    (os next : List OpenOrder) (c : OpenOrder)
    → AreDistinct os
    → add_order os c ≡ ok next
    → AreDistinct next
unfolding add_order
add_order-AreDistinct os next c h e =
    let (_, free, e₁) = >>=-returns (require (not (any_shares c os)) duplicate_order) _ e in
    let alone : any_shares c os ≡ false = (let t = require-ok _ _ free in ground arith) in
    subst AreDistinct (ok_injective _ next e₁) (snoc-AreDistinct os c h alone)

All-unmatched :
    (P : OpenOrder → Type 0) (oid : Option ℕ) (cloid : Option Text) (os : List OpenOrder)
    → All P os
    → All P (unmatched oid cloid os)
All-unmatched P oid cloid [] h = tt
All-unmatched P oid cloid (o ∷ os) (p, h) = elim (Bool-cases (answers_to oid cloid o)) [
  | inl e ↦ rw e (All-unmatched P oid cloid os h)
  | inr e ↦ rw e (p, All-unmatched P oid cloid os h)
]

unmatched-AreDistinct :
    (oid : Option ℕ) (cloid : Option Text) (os : List OpenOrder)
    → AreDistinct os
    → AreDistinct (unmatched oid cloid os)
unmatched-AreDistinct oid cloid [] h = tt
unmatched-AreDistinct oid cloid (o ∷ os) (q, h) = elim (Bool-cases (answers_to oid cloid o)) [
  | inl e ↦ rw e (unmatched-AreDistinct oid cloid os h)
  | inr e ↦ rw e (
    All-unmatched (λ p. shares_name p o ≡ false) oid cloid os q,
    unmatched-AreDistinct oid cloid os h,
  )
]

with_status-AreDistinct :
    (status : Text) (parsed : Result AccountStreamError OpenOrder) (os next : List OpenOrder)
    → AreDistinct os
    → with_status status parsed os ≡ ok next
    → AreDistinct next
unfolding with_status
with_status-AreDistinct status parsed os next h e =
    elim (Bool-cases (text_eq status (codes "open"))) [
      | inl o ↦
          let (order, _, e₁) = >>=-returns parsed (λ order. add_order os order) (rw o at e) in
          add_order-AreDistinct os next order h e₁
      | inr o ↦ elim (Bool-cases (terminal_order_status status)) [
        | inl t ↦ subst AreDistinct (ok_injective _ next (rw (o, t) at e)) h
        | inr t ↦ absurd (let x = (rw (o, t) at e) in cc)
      ]
    ]

module _ (shown : Json → Text) (int_text : Text → Option ℤ) where
  parsed-AreDistinct :
      (outer : Fields) (observed_ms : ℕ) (os next : List OpenOrder) (rows : Items)
      → AreDistinct os
      → parse_rows_after shown int_text outer observed_ms os rows ≡ ok next
      → AreDistinct next
  parsed-AreDistinct outer observed_ms os next nil h e = subst AreDistinct (ok_injective _ next e) h
  parsed-AreDistinct outer observed_ms os next (cons row rows) h e =
      let (order, _, e₁) =
        >>=-returns (parse_order_value shown int_text outer observed_ms row) _ e in
      let (more, added, e₂) = >>=-returns (add_order os order) _ e₁ in
      parsed-AreDistinct outer observed_ms more next rows
        (add_order-AreDistinct os more order h added) e₂

  updated-AreDistinct :
      (s : Stream) (latest : ℕ) (os : List OpenOrder) (next : List OpenOrder × ℕ) (rows : Items)
      → AreDistinct os
      → update_all shown int_text s latest os rows ≡ ok next
      → AreDistinct next.0
  unfolding update_orders
  updated-AreDistinct s latest os next nil h e =
      subst (λ r. AreDistinct r.0) (ok_injective _ next e) h
  updated-AreDistinct s latest os next (cons row rows) h e =
      let (u, _, e₁) = >>=-returns (read_update shown int_text s row) _ e in
      let (more, changed, e₂) = >>=-returns (update_orders shown int_text u os) _ e₁ in
      let (_, _, e₃) =
        >>=-returns (require (at_most_one (matching u.oid u.cloid os)) different_orders) _
          changed in
      let others = unmatched u.oid u.cloid os in
      let parsed = parse_one_order shown int_text u.outer u.status_ms u.order in
      let kept =
        with_status-AreDistinct u.status parsed others more
          (unmatched-AreDistinct u.oid u.cloid os h) e₃ in
      updated-AreDistinct s (max latest u.status_ms) more next rows kept e₂

  pub apply_open_orders-AreDistinct :
      (at : ℕ) (payload : Json) (s t : Stream) (update : ChannelUpdate)
      → apply_open_orders shown int_text at payload s ≡ ok (t, update)
      → AreDistinct t.follower.open_orders
  unfolding apply_open_orders parse_order_rows
  apply_open_orders-AreDistinct at payload s t update h =
      let (fs, _, h₁) = >>=-returns (fields_of bad_data payload) _ h in
      let (who, _, h₂) = >>=-returns (role_for_data shown int_text fs s) _ h₁ in
      let (_, _, h₃) = >>=-returns (follower_only who.1) _ h₂ in
      let (rows, _, h₄) = >>=-returns (items_of bad_rows (get (codes "orders") fs)) _ h₃ in
      let (orders, e, h₅) = >>=-returns (parse_order_rows shown int_text fs at rows) _ h₄ in
      subst (λ r. AreDistinct r.0.follower.open_orders) (ok_injective _ (t, update) h₅)
        (parsed-AreDistinct fs at [] orders rows tt e)

  with_updates-orders :
      (at latest : ℕ) (orders : List OpenOrder) (a : MutableAccount)
      → (with_updates at latest orders a).open_orders ≡ orders
  unfolding with_updates
  with_updates-orders at latest orders a = ground arith

  pub apply_order_updates-AreDistinct :
      (at : ℕ) (payload : Json) (s t : Stream) (update : ChannelUpdate)
      → AreDistinct s.follower.open_orders
      → apply_order_updates shown int_text at payload s ≡ ok (t, update)
      → AreDistinct t.follower.open_orders
  unfolding apply_order_updates
  apply_order_updates-AreDistinct at payload s t update d h =
      let (rows, _, h₁) = >>=-returns (updates_of shown int_text s payload) _ h in
      let (next, e, h₂) =
        >>=-returns (update_all shown int_text s at s.follower.open_orders rows) _ h₁ in
      let kept = updated-AreDistinct s at s.follower.open_orders next rows d e in
      subst (λ r. AreDistinct r.0.follower.open_orders) (ok_injective _ (t, update) h₂)
        (rw (with_updates-orders at next.1 next.0 s.follower) kept)

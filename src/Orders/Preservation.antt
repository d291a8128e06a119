-- ===== src/Orders/Preservation.antt =====
-- Cancelling, expiring and changing the status of an order keep the invariant of the order tables.
use fashion_ai_be.Prelude.{
  ℕ, ◌+◌, ◌==◌, ◌≡◌, refl, inl, inr, Bool, true, false, not, ◌&&◌, Option, some, List, [], ◌∷◌,
  arith, find_by, find_by-find, same, if◌then◌else◌, Bool-cases, Option-cases,
}
use fashion_ai_be.Schema.OrderStatus.{OrderStatus, status_key_keyed}
use fashion_ai_be.Schema.RefundStatus.{refund_key_keyed}
use fashion_ai_be.Schema.Shop.{Db, Order}
use fashion_ai_be.Orders.Tx.{
  Identifier, count_order, find_order_by_identifier, find_order_for_owner, identifies, Result, ok,
  err,
}
use fashion_ai_be.Orders.Cancel.{
  cancel_attempt, cancel_answer, cancel, cancel_row, is_cancellable, is_unpaid, expire_row,
  expire_commit, expire_each, expire_unpaid_orders, expiry_candidates,
}
use fashion_ai_be.Orders.Update.{
  is_collected, status_row, status_commit, status_decided, status_prepare, status_finish,
  update_status, resolve_submitted_reviews, close_reviews, resolve_open_disputes, status_check,
}
use fashion_ai_be.Orders.Effects.{cancel_done, cancel_outcomes, expire_done, expire_outcomes}
use fashion_ai_be.Orders.Invariant.{
  IsOwed, IsShop, Frame, Frame-IsShop, order_id_of, update_order-IsShop, update_read-IsShop,
  release-IsShop, expire_placeholders-IsShop, create_order_event-IsShop,
}

cancel_row-IsOwed :
    (user_id k : ℕ) (o : Order)
    → IsOwed o
    → IsOwed (if o.id == k && is_cancellable user_id o then cancel_row o else o)
cancel_row-IsOwed user_id k o h = ground arith

cancel_done-IsShop : (user_id k : ℕ) (db : Db) → IsShop db → IsShop (cancel_done user_id k db)
cancel_done-IsShop user_id k db h =
    let h₁ =
      update_order-IsShop k (is_cancellable user_id) cancel_row db (λ o. refl)
        (cancel_row-IsOwed user_id k) h in
    elim (Bool-cases (count_order k (is_cancellable user_id) db == 0)) [
      | inl none_met ↦ rw none_met h₁
      | inr met ↦
          rw met
            (release-IsShop k _ (create_order_event-IsShop _ _ (expire_placeholders-IsShop k _ h₁)))
    ]

cancel_answer-IsShop :
    (user_id k : ℕ) (db : Db)
    → IsShop db
    → IsShop (cancel_answer k (cancel_attempt user_id k db) db).0
cancel_answer-IsShop user_id k db h = elim (cancel_outcomes user_id k db) [
  | inl undone ↦ rw undone h
  | inr there ↦ rw there (cancel_done-IsShop user_id k db h)
]

-- A customer's `cancel` keeps the invariant of the orders, whatever it answers.
pub cancel-IsShop :
    (user_id : ℕ) (ident : Identifier) (db : Db) → IsShop db → IsShop (cancel user_id ident db).0
unfolding cancel
cancel-IsShop user_id ident db h = elim (Option-cases (find_order_for_owner user_id ident db)) [
  | inl absent ↦ rw absent h
  | inr (order, found) ↦ elim (Bool-cases (not (same order.status OrderStatus.created))) [
    | inl other ↦ rw (found, other) h
    | inr awaiting ↦ rw (found, awaiting) (cancel_answer-IsShop user_id order.id db h)
  ]
]

expire_row-IsOwed :
    (k : ℕ) (o : Order) → IsOwed o → IsOwed (if o.id == k && is_unpaid o then expire_row o else o)
expire_row-IsOwed k o h = ground arith

expire_done-IsShop : (k : ℕ) (db : Db) → IsShop db → IsShop (expire_done k db)
expire_done-IsShop k db h =
    let h₁ = update_order-IsShop k is_unpaid expire_row db (λ o. refl) (expire_row-IsOwed k) h in
    elim (Bool-cases (count_order k is_unpaid db == 0)) [
      | inl none_met ↦ rw none_met h₁
      | inr met ↦
          rw met
            (create_order_event-IsShop _ _ (release-IsShop k _ (expire_placeholders-IsShop k _ h₁)))
    ]

expire_commit-IsShop : (k : ℕ) (db : Db) → IsShop db → IsShop (expire_commit k db).0
expire_commit-IsShop k db h = elim (expire_outcomes k db) [
  | inl (_, undone) ↦ rw undone h
  | inr there ↦ rw there (expire_done-IsShop k db h)
]

expire_each-IsShop :
    (os : List Order) (n : ℕ) (db : Db) → IsShop db → IsShop (expire_each os n db).0
unfolding expire_each
expire_each-IsShop [] n db h = h
expire_each-IsShop (o ∷ os) n db h =
    expire_each-IsShop os (if (expire_commit o.id db).1 == 0 then n else n + 1)
      (expire_commit o.id db).0 (expire_commit-IsShop o.id db h)

-- A run of `expireUnpaidOrders` keeps the invariant.
pub expire_unpaid_orders-IsShop :
    (now : ℕ) (db : Db) → IsShop db → IsShop (expire_unpaid_orders now db).0
unfolding expire_unpaid_orders
expire_unpaid_orders-IsShop now db h = expire_each-IsShop (expiry_candidates now db) 0 db h

-- The new row of an order that was just read.
status_row-IsOwed :
    (order : Order) (status : OrderStatus) → IsOwed order → IsOwed (status_row order status order)
status_row-IsOwed order status h = ground arith

pub prepare-Frame :
    (order : Order) (status : OrderStatus) (db : Db) → Frame db (status_prepare order status db)
unfolding status_prepare resolve_submitted_reviews close_reviews resolve_open_disputes
prepare-Frame order status db = ground arith

finish-IsShop :
    (order : Order) (status : OrderStatus) (db : Db)
    → IsShop db
    → IsShop (status_finish order status db)
unfolding status_finish
finish-IsShop order status db h =
    create_order_event-IsShop _ _
      (elim (Bool-cases
        (same status OrderStatus.cancelled && not (is_collected order.payment_status))) [
          | inl unpaid ↦
              rw unpaid (release-IsShop order.id _ (expire_placeholders-IsShop order.id db h))
          | inr other ↦ rw other h
        ])

status_commit-IsShop :
    (order : Order) (status : OrderStatus) (db : Db)
    → find_by order_id_of order.id db.orders ≡ some order
    → IsShop db
    → IsShop (status_commit order status db)
unfolding status_commit
status_commit-IsShop order status db f h =
    let same_tables = prepare-Frame order status db in
    finish-IsShop order status _ (
      update_read-IsShop order (status_row order status) _ (rw (same_tables.orders) f) (λ o. refl)
        (status_row-IsOwed order status) (Frame-IsShop db _ same_tables h))

decided-IsShop :
    (r : Result Bool) (order : Order) (status : OrderStatus) (db : Db)
    → find_by order_id_of order.id db.orders ≡ some order
    → IsShop db
    → IsShop (status_decided r order status db).0
unfolding status_decided
decided-IsShop (err e) order status db f h = h
decided-IsShop (ok false) order status db f h = h
decided-IsShop (ok true) order status db f h = status_commit-IsShop order status db f h

-- Every call of `updateStatus` keeps the invariant, refused calls included.
pub update_status-IsShop :
    (ident : Identifier) (status : OrderStatus) (expected : Option OrderStatus) (db : Db)
    → IsShop db
    → IsShop (update_status ident status expected db).0
unfolding update_status
update_status-IsShop ident status expected db h =
    elim (Option-cases (find_order_by_identifier ident db)) [
      | inl absent ↦ rw absent h
      | inr (order, found) ↦ rw found (
          decided-IsShop (status_check order status expected db) order status db
            (find_by-find order_id_of (identifies ident) db.orders h.orders_unique found) h)
    ]

-- ===== src/Lifecycle/DeliveryMoves.antt =====
-- Confirming a delivery or a refund and a delivery dispute never move an order back.
use fashion_ai_be.Prelude.{
  ℕ, ◌==◌, ◌≡◌, refl, inl, inr, true, not, ◌&&◌, Option, none, some, update_many, List, arith,
  find_by, find_by-find, same, includes, if_first, Bool-cases, Option-cases,
}
use fashion_ai_be.Schema.OrderStatus.{OrderStatus, status_key_keyed}
use fashion_ai_be.Schema.RefundStatus.{RefundStatus, refund_key_keyed}
use fashion_ai_be.Schema.Shop.{Db, Order, DeliveryDispute, DisputeResolution}
use fashion_ai_be.Orders.Flow.{delivery_confirmable_statuses}
use fashion_ai_be.Orders.Tx.{
  Identifier, identifies, find_order_for_owner, find_order_by_identifier, update_order, always,
  count_order, is_null,
}
use fashion_ai_be.Orders.Delivery.{
  current_shipment, is_raw_delivered, is_within_dispute_window, complete_row, confirm_commit,
  confirm_delivery, refund_confirmed_row, confirm_refund_received,
}
use fashion_ai_be.Orders.Disputes.{
  open_disputes, is_empty, is_disputable, disputed_row, dispute_commit, create_delivery_dispute,
  newest_dispute, resolved_row, resolve_commit, resolve_found, resolve_delivery_dispute,
}
use fashion_ai_be.Orders.Invariant.{IsShop, order_id_of, create_order_event-Frame}
use fashion_ai_be.Orders.DeliveryPreservation.{disputes-Frame}
use fashion_ai_be.Orders.Stage.{Advances, AllAdvance, update-AllAdvance, read-AllAdvance}
use fashion_ai_be.Lifecycle.OrderMoves.{Moves, stay}

-- A change of an order that was just read, in a database whose orders are the same.
read-Moves :
    (order : Order) (f : Order → Order) (db : Db) (rows : List Order)
    → IsShop db
    → find_by order_id_of order.id db.orders ≡ some order
    → rows ≡ db.orders
    → Advances order (f order)
    → AllAdvance db.orders (update_many (λ o. o.id == order.id && always o) f rows)
read-Moves order f db rows h found e adv =
    rw e (read-AllAdvance order f db.orders h.orders_unique found adv)

owner_found :
    (user_id : ℕ) (ident : Identifier) (db : Db) {order : Order}
    → IsShop db
    → find_order_for_owner user_id ident db ≡ some order
    → find_by order_id_of order.id db.orders ≡ some order
owner_found user_id ident db h found =
    find_by-find order_id_of (λ o. identifies ident o && o.user_id == user_id) db.orders
      h.orders_unique found

complete-Advances :
    (o : Order)
    → includes delivery_confirmable_statuses o.status ≡ true
    → Advances o (complete_row o)
complete-Advances o h = ground arith

pub confirm_delivery-Moves :
    (user_id : ℕ) (ident : Identifier) (db : Db)
    → IsShop db
    → Moves db (confirm_delivery user_id ident db).0
unfolding confirm_delivery confirm_commit
confirm_delivery-Moves user_id ident db h =
    elim (Option-cases (find_order_for_owner user_id ident db)) [
      | inl absent ↦ rw absent (stay db)
      | inr (order, found) ↦
          elim (Bool-cases (includes delivery_confirmable_statuses order.status)) [
            | inr other ↦
                rw (found, other)
                  (if_first (Moves db) (same order.status OrderStatus.completed) _ _ (stay db)
                    (stay db))
            | inl confirmable ↦
                let frame =
                  disputes-Frame order.id DisputeResolution.customer_confirmed_received db in
                rw (found, confirmable)
                  (if_first (Moves db) (same order.status OrderStatus.completed) _ _ (stay db) (
                    if_first (Moves db) (not (is_raw_delivered (current_shipment order db))) _ _
                      (stay db)
                      (rw ((create_order_event-Frame _ _).orders) (
                        read-Moves order complete_row db _ h (owner_found user_id ident db h found)
                          (frame.orders) (complete-Advances order confirmable)))))
          ]
    ]

pub confirm_refund_received-Moves :
    (user_id : ℕ) (ident : Identifier) (now : ℕ) (db : Db)
    → IsShop db
    → Moves db (confirm_refund_received user_id ident now db).0
unfolding confirm_refund_received
confirm_refund_received-Moves user_id ident now db h =
    elim (Option-cases (find_order_for_owner user_id ident db)) [
      | inl absent ↦ rw absent (stay db)
      | inr (order, found) ↦ rw found (
          if_first (Moves db) (not (same order.refund_status RefundStatus.completed)) _ _ (stay db)
            (if_first (Moves db) (not (is_null order.refund_confirmed_at)) _ _ (stay db) (
              rw ((create_order_event-Frame _ _).orders) (
                read-Moves order (refund_confirmed_row now) db _ h
                  (owner_found user_id ident db h found) refl (refl, inl refl)))))
    ]

dispute_commit-Moves :
    (order : Order) (now : ℕ) (db : Db) → Moves db (dispute_commit order now db).0
unfolding dispute_commit
dispute_commit-Moves order now db =
    let moved : Moves db (update_order order.id is_disputable disputed_row db) =
      update-AllAdvance order.id is_disputable disputed_row db.orders
        (λ o e. (refl, inr (ground arith))) in
    if_first (Moves db) (count_order order.id is_disputable db == 0) _ _ (stay db)
      (rw ((create_order_event-Frame _ _).orders) moved)

pub create_delivery_dispute-Moves :
    (user_id : ℕ) (ident : Identifier) (now : ℕ) (db : Db)
    → Moves db (create_delivery_dispute user_id ident now db).0
unfolding create_delivery_dispute
create_delivery_dispute-Moves user_id ident now db =
    elim (Option-cases (find_order_for_owner user_id ident db)) [
      | inl absent ↦ rw absent (stay db)
      | inr (order, found) ↦ rw found (
          if_first (Moves db) (not (is_disputable order)) _ _ (stay db) (
            if_first (Moves db) (not (is_raw_delivered (current_shipment order db))) _ _ (stay db) (
              if_first (Moves db) (not (is_within_dispute_window now (current_shipment order db))) _
                _ (stay db)
                (if_first (Moves db) (not (is_empty (open_disputes order db))) _ _ (stay db)
                  (dispute_commit-Moves order now db)))))
    ]

resolved-Advances :
    (order : Order) (r : DisputeResolution)
    → same order.status OrderStatus.delivery_disputed ≡ true
    → Advances order (resolved_row order r order)
resolved-Advances order r h = ground arith

resolve_found-Moves :
    (d : Option DeliveryDispute) (order : Order) (r : DisputeResolution) (db : Db)
    → IsShop db
    → find_by order_id_of order.id db.orders ≡ some order
    → same order.status OrderStatus.delivery_disputed ≡ true
    → Moves db (resolve_found d order r db).0
unfolding resolve_found resolve_commit
resolve_found-Moves none order r db h found disputed = stay db
resolve_found-Moves (some d) order r db h found disputed =
    rw ((create_order_event-Frame _ _).orders) (
      read-Moves order (resolved_row order r) db _ h found refl
        (resolved-Advances order r disputed))

pub resolve_delivery_dispute-Moves :
    (ident : Identifier) (r : DisputeResolution) (db : Db)
    → IsShop db
    → Moves db (resolve_delivery_dispute ident r db).0
unfolding resolve_delivery_dispute
resolve_delivery_dispute-Moves ident r db h =
    elim (Option-cases (find_order_by_identifier ident db)) [
      | inl absent ↦ rw absent (stay db)
      | inr (order, found) ↦ elim (Bool-cases (same order.status OrderStatus.delivery_disputed)) [
        | inr other ↦ rw (found, other) (stay db)
        | inl disputed ↦
            rw (found, disputed)
              (resolve_found-Moves (newest_dispute (open_disputes order db)) order r db h
                (find_by-find order_id_of (identifies ident) db.orders h.orders_unique found)
                disputed)
      ]
    ]

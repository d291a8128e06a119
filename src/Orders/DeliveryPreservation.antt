-- ===== src/Orders/DeliveryPreservation.antt =====
-- Confirming a delivery or a refund and opening or resolving a dispute keep the invariant.
use fashion_ai_be.Prelude.{
  ℕ, ◌==◌, ◌≡◌, refl, inl, inr, not, ◌&&◌, Option, none, some, arith, find_by, find_by-find, same,
  includes, if_first, if◌then◌else◌, Option-cases,
}
use fashion_ai_be.Schema.OrderStatus.{OrderStatus, status_key_keyed}
use fashion_ai_be.Schema.RefundStatus.{RefundStatus, refund_key_keyed}
use fashion_ai_be.Schema.Shop.{Db, Order, DeliveryDispute, DisputeResolution}
use fashion_ai_be.Orders.Flow.{delivery_confirmable_statuses}
use fashion_ai_be.Orders.Tx.{
  Identifier, identifies, find_order_for_owner, find_order_by_identifier, update_order, count_order,
  is_null,
}
use fashion_ai_be.Orders.Update.{resolve_open_disputes}
use fashion_ai_be.Orders.Delivery.{
  current_shipment, is_raw_delivered, is_within_dispute_window, complete_row, confirm_commit,
  confirm_delivery, refund_confirmed_row, confirm_refund_received,
}
use fashion_ai_be.Orders.Disputes.{
  open_disputes, is_empty, is_disputable, disputed_row, dispute_commit, create_delivery_dispute,
  newest_dispute, resolved_row, resolve_commit, resolve_found, resolve_delivery_dispute,
}
use fashion_ai_be.Orders.Invariant.{
  IsOwed, IsShop, Frame, Frame-IsShop, order_id_of, update_order-IsShop, update_read-IsShop,
  create_order_event-IsShop,
}

pub disputes-Frame :
    (k : ℕ) (r : DisputeResolution) (db : Db) → Frame db (resolve_open_disputes k r db)
unfolding resolve_open_disputes
disputes-Frame k r db = ground arith

complete_row-IsOwed : (o : Order) → IsOwed o → IsOwed (complete_row o)
complete_row-IsOwed o h = ground arith

-- `confirmDelivery` keeps the invariant.
pub confirm_delivery-IsShop :
    (user_id : ℕ) (ident : Identifier) (db : Db)
    → IsShop db
    → IsShop (confirm_delivery user_id ident db).0
unfolding confirm_delivery confirm_commit
confirm_delivery-IsShop user_id ident db h =
    elim (Option-cases (find_order_for_owner user_id ident db)) [
      | inl absent ↦ rw absent h
      | inr (order, found) ↦
          let db₁ =
            resolve_open_disputes order.id DisputeResolution.customer_confirmed_received db in
          let f =
            find_by-find order_id_of (λ o. identifies ident o && o.user_id == user_id) db.orders
              h.orders_unique found in
          let frame = disputes-Frame order.id DisputeResolution.customer_confirmed_received db in
          rw found (
            if_first IsShop (same order.status OrderStatus.completed) _ _ h (
              if_first IsShop (not (includes delivery_confirmable_statuses order.status)) _ _ h (
                if_first IsShop (not (is_raw_delivered (current_shipment order db))) _ _ h (
                  create_order_event-IsShop _ _ (
                    update_read-IsShop order complete_row db₁ (rw (frame.orders) f) (λ o. refl)
                      (complete_row-IsOwed order) (Frame-IsShop db db₁ frame h))))))
    ]

refund_confirmed_row-IsOwed : (now : ℕ) (o : Order) → IsOwed o → IsOwed (refund_confirmed_row now o)
refund_confirmed_row-IsOwed now o h = ground arith

-- `confirmRefundReceived` keeps the invariant.
pub confirm_refund_received-IsShop :
    (user_id : ℕ) (ident : Identifier) (now : ℕ) (db : Db)
    → IsShop db
    → IsShop (confirm_refund_received user_id ident now db).0
unfolding confirm_refund_received
confirm_refund_received-IsShop user_id ident now db h =
    elim (Option-cases (find_order_for_owner user_id ident db)) [
      | inl absent ↦ rw absent h
      | inr (order, found) ↦
          let f =
            find_by-find order_id_of (λ o. identifies ident o && o.user_id == user_id) db.orders
              h.orders_unique found in
          rw found (
            if_first IsShop (not (same order.refund_status RefundStatus.completed)) _ _ h (
              if_first IsShop (not (is_null order.refund_confirmed_at)) _ _ h (
                create_order_event-IsShop _ _ (
                  update_read-IsShop order (refund_confirmed_row now) db f (λ o. refl)
                    (refund_confirmed_row-IsOwed now order) h))))
    ]

disputed_row-IsOwed :
    (k : ℕ) (o : Order)
    → IsOwed o
    → IsOwed (if o.id == k && is_disputable o then disputed_row o else o)
disputed_row-IsOwed k o h = ground arith

dispute_commit-IsShop :
    (order : Order) (now : ℕ) (db : Db) → IsShop db → IsShop (dispute_commit order now db).0
unfolding dispute_commit
dispute_commit-IsShop order now db h =
    let h₁ =
      update_order-IsShop order.id is_disputable disputed_row db (λ o. refl)
        (disputed_row-IsOwed order.id) h in
    if_first IsShop (count_order order.id is_disputable db == 0) _ _ h (
      create_order_event-IsShop _ _
        (Frame-IsShop (update_order order.id is_disputable disputed_row db) _ (ground arith) h₁))

-- `createDeliveryDispute` keeps the invariant.
pub create_delivery_dispute-IsShop :
    (user_id : ℕ) (ident : Identifier) (now : ℕ) (db : Db)
    → IsShop db
    → IsShop (create_delivery_dispute user_id ident now db).0
unfolding create_delivery_dispute
create_delivery_dispute-IsShop user_id ident now db h =
    elim (Option-cases (find_order_for_owner user_id ident db)) [
      | inl absent ↦ rw absent h
      | inr (order, found) ↦ rw found (
          if_first IsShop (not (is_disputable order)) _ _ h (
            if_first IsShop (not (is_raw_delivered (current_shipment order db))) _ _ h (
              if_first IsShop (not (is_within_dispute_window now (current_shipment order db))) _ _ h
                (if_first IsShop (not (is_empty (open_disputes order db))) _ _ h
                  (dispute_commit-IsShop order now db h)))))
    ]

resolved_row-IsOwed :
    (order : Order) (r : DisputeResolution) → IsOwed order → IsOwed (resolved_row order r order)
resolved_row-IsOwed order r h = ground arith

resolve_found-IsShop :
    (d : Option DeliveryDispute) (order : Order) (r : DisputeResolution) (db : Db)
    → find_by order_id_of order.id db.orders ≡ some order
    → IsShop db
    → IsShop (resolve_found d order r db).0
unfolding resolve_found resolve_commit
resolve_found-IsShop none order r db f h = h
resolve_found-IsShop (some dispute) order r db f h = create_order_event-IsShop _ _ (
    update_read-IsShop order (resolved_row order r) _ f (λ o. refl) (resolved_row-IsOwed order r)
      (Frame-IsShop db _ (ground arith) h))

-- `resolveDeliveryDispute` keeps the invariant.
pub resolve_delivery_dispute-IsShop :
    (ident : Identifier) (r : DisputeResolution) (db : Db)
    → IsShop db
    → IsShop (resolve_delivery_dispute ident r db).0
unfolding resolve_delivery_dispute
resolve_delivery_dispute-IsShop ident r db h =
    elim (Option-cases (find_order_by_identifier ident db)) [
      | inl absent ↦ rw absent h
      | inr (order, found) ↦ rw found (
          if_first IsShop (not (same order.status OrderStatus.delivery_disputed)) _ _ h (
            resolve_found-IsShop (newest_dispute (open_disputes order db)) order r db
              (find_by-find order_id_of (identifies ident) db.orders h.orders_unique found) h))
    ]

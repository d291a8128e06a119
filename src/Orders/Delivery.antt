-- ===== src/Orders/Delivery.antt =====
-- `confirmDelivery` and `confirmRefundReceived` of src/modules/orders/orders.service.ts, and the
-- shipment that they look at. `confirm_commit` is a transaction, on the order that was read before.
use fashion_ai_be.Prelude.{
  ℕ, ◌-◌, ◌==◌, leb, ltb, Bool, true, false, not, Option, none, some, List, [], ◌∷◌, find_many,
  same, includes, if◌then◌else◌,
}
use fashion_ai_be.Schema.OrderStatus.{OrderStatus, status_key_keyed}
use fashion_ai_be.Schema.RefundStatus.{RefundStatus, refund_key_keyed}
use fashion_ai_be.Schema.Shop.{Db, Order, Shipment, DisputeResolution, EventType}
use fashion_ai_be.Orders.Flow.{delivery_confirmable_statuses, delivery_dispute_window_ms}
use fashion_ai_be.Orders.Tx.{
  Identifier, HttpError, Result, ok, err, find_order_for_owner, update_order, always,
  create_order_event, is_null,
}
use fashion_ai_be.Orders.Update.{resolve_open_disputes}

abbrev newer_of : Shipment → Option Shipment → Shipment
newer_of s none = s
newer_of s (some t) = if ltb s.created_at t.created_at then t else s

abbrev newest : List Shipment → Option Shipment
newest [] = none
newest (s ∷ ss) = some (newer_of s (newest ss))

-- `getCurrentShipment`
unfoldable pub current_shipment : Order → Db → Option Shipment
current_shipment order db = newest (find_many (λ s. s.order_id == order.id) db.shipments)

abbrev pub is_raw_delivered : Option Shipment → Bool
is_raw_delivered none = false
is_raw_delivered (some s) = s.raw_delivered

-- `providerEventAt ?? lastSyncedAt ?? updatedAt`
abbrev or_else : Option ℕ → ℕ → ℕ
or_else none d = d
or_else (some t) d = t

-- `getCarrierDeliveredAt`
abbrev pub carrier_delivered_at : Shipment → ℕ
carrier_delivered_at s = elim s.provider_event_at [
  | some t ↦ t
  | none ↦ or_else s.last_synced_at s.updated_at
]

-- `isWithinDeliveryDisputeWindow`; a time that lies ahead of `now` is within it
abbrev pub is_within_dispute_window : ℕ → Option Shipment → Bool
is_within_dispute_window now none = false
is_within_dispute_window now (some s) =
    leb (now - carrier_delivered_at s) delivery_dispute_window_ms

abbrev pub complete_row : Order → Order
complete_row o = record o { status = OrderStatus.completed }

unfoldable pub confirm_commit : Order → Db → Db
confirm_commit order db =
    create_order_event
      (record {
        order_id = order.id;
        type = EventType.delivery_confirmed;
        from_status = some order.status;
        to_status = some OrderStatus.completed;
        deduplication_key = none;
      })
      (update_order order.id always complete_row
        (resolve_open_disputes order.id DisputeResolution.customer_confirmed_received db))

confirm_read : Option Order → Db → Db × Result Bool
confirm_read none db = (db, err HttpError.not_found)
confirm_read (some order) db =
    if same order.status OrderStatus.completed
    then (db, ok false)
    else if not (includes delivery_confirmable_statuses order.status)
    then (db, err HttpError.bad_request)
    else if not (is_raw_delivered (current_shipment order db))
    then (db, err HttpError.bad_request)
    else (confirm_commit order db, ok true)

-- `confirmDelivery`; `ok false` is the answer for an order that is complete already
unfoldable pub confirm_delivery : ℕ → Identifier → Db → Db × Result Bool
unfolding confirm_read
confirm_delivery user_id ident db = confirm_read (find_order_for_owner user_id ident db) db

abbrev pub refund_confirmed_row : ℕ → Order → Order
refund_confirmed_row now o = record o { refund_confirmed_at = some now }

refund_received_read : Option Order → ℕ → Db → Db × Result Bool
refund_received_read none now db = (db, err HttpError.not_found)
refund_received_read (some order) now db =
    if not (same order.refund_status RefundStatus.completed)
    then (db, err HttpError.bad_request)
    else if not (is_null order.refund_confirmed_at)
    then (db, ok false)
    else (
      create_order_event
          (record {
            order_id = order.id;
            type = EventType.refund_received_confirmed;
            from_status = none;
            to_status = none;
            deduplication_key = none;
          })
          (update_order order.id always (refund_confirmed_row now) db),
      ok true,
    )

-- `confirmRefundReceived`
unfoldable pub confirm_refund_received : ℕ → Identifier → ℕ → Db → Db × Result Bool
unfolding refund_received_read
confirm_refund_received user_id ident now db =
    refund_received_read (find_order_for_owner user_id ident db) now db

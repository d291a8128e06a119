-- ===== src/Orders/Disputes.antt =====
-- `createDeliveryDispute` and `resolveDeliveryDispute` of src/modules/orders/orders.service.ts. Each `_commit` is a transaction, on the order that was
-- read before it.
use fashion_ai_be.Prelude.{
  ℕ, ◌+◌, ◌==◌, ltb, Bool, true, false, not, ◌&&◌, Option, none, some, List, [], ◌∷◌, find_many,
  update_many, same, includes, if◌then◌else◌,
}
use fashion_ai_be.Schema.OrderStatus.{OrderStatus, status_key_keyed}
use fashion_ai_be.Schema.RefundStatus.{RefundStatus, refund_key_keyed}
use fashion_ai_be.Schema.Shop.{Db, Order, DeliveryDispute, DisputeResolution, EventType}
use fashion_ai_be.Orders.Flow.{delivery_disputable_statuses}
use fashion_ai_be.Orders.Tx.{
  Identifier, HttpError, Result, ok, err, find_order_for_owner, find_order_by_identifier,
  update_order, count_order, always, create_order_event,
}
use fashion_ai_be.Orders.Update.{is_collected}
use fashion_ai_be.Orders.Delivery.{current_shipment, is_raw_delivered, is_within_dispute_window}

-- the open disputes of an order, as `orderInclude` reads them
abbrev pub open_disputes : Order → Db → List DeliveryDispute
open_disputes order db = find_many (λ d. d.order_id == order.id && d.is_open) db.disputes

abbrev pub is_empty {ℓ} : {A : Type ℓ} → List A → Bool
is_empty [] = true
is_empty (_ ∷ _) = false

abbrev pub is_disputable : Order → Bool
is_disputable o = includes delivery_disputable_statuses o.status

abbrev pub disputed_row : Order → Order
disputed_row o = record o { status = OrderStatus.delivery_disputed }

-- the transaction of `createDeliveryDispute`; an error undoes it
unfoldable pub dispute_commit : Order → ℕ → Db → Db × Result Bool
dispute_commit order now db =
    if count_order order.id is_disputable db == 0
    then (db, err HttpError.conflict)
    else let db₁ = update_order order.id is_disputable disputed_row db in
      let db₂ = record db₁ {
        disputes =
            record {
              id = db₁.next_id;
              order_id = order.id;
              is_open = true;
              resolution = none;
              created_at = now;
            }
            ∷ db₁.disputes;
        next_id = db₁.next_id + 1;
      } in
      (
        create_order_event
            (record {
              order_id = order.id;
              type = EventType.delivery_dispute_opened;
              from_status = some order.status;
              to_status = some OrderStatus.delivery_disputed;
              deduplication_key = none;
            })
            db₂,
        ok true,
      )

dispute_read : Option Order → ℕ → Db → Db × Result Bool
dispute_read none now db = (db, err HttpError.not_found)
dispute_read (some order) now db =
    if not (is_disputable order)
    then (db, err HttpError.bad_request)
    else if not (is_raw_delivered (current_shipment order db))
    then (db, err HttpError.bad_request)
    else if not (is_within_dispute_window now (current_shipment order db))
    then (db, err HttpError.bad_request)
    else if not (is_empty (open_disputes order db))
    then (db, err HttpError.conflict)
    else dispute_commit order now db

-- `createDeliveryDispute`
unfoldable pub create_delivery_dispute : ℕ → Identifier → ℕ → Db → Db × Result Bool
unfolding dispute_read
create_delivery_dispute user_id ident now db =
    dispute_read (find_order_for_owner user_id ident db) now db

abbrev pub newer_dispute : DeliveryDispute → Option DeliveryDispute → DeliveryDispute
newer_dispute d none = d
newer_dispute d (some e) = if ltb d.created_at e.created_at then e else d

abbrev pub newest_dispute : List DeliveryDispute → Option DeliveryDispute
newest_dispute [] = none
newest_dispute (d ∷ ds) = some (newer_dispute d (newest_dispute ds))

-- `isRefundResolution`
abbrev pub is_refund_resolution : DisputeResolution → Bool
is_refund_resolution DisputeResolution.refunded = true
is_refund_resolution DisputeResolution.lost = true
is_refund_resolution _ = false

abbrev pub resolution_status : DisputeResolution → OrderStatus
resolution_status r =
    if is_refund_resolution r then OrderStatus.cancelled else OrderStatus.completed

abbrev pub resolved_row : Order → DisputeResolution → Order → Order
resolved_row order r o = record o {
  status = resolution_status r;
  refund_status =
      if same (resolution_status r) OrderStatus.cancelled
        && is_collected order.payment_status
        && same order.refund_status RefundStatus.none
      then RefundStatus.required
      else o.refund_status;
}

unfoldable pub resolve_commit : Order → DeliveryDispute → DisputeResolution → Db → Db
resolve_commit order dispute r db =
    create_order_event
      (record {
        order_id = order.id;
        type = EventType.delivery_dispute_resolved;
        from_status = some OrderStatus.delivery_disputed;
        to_status = some (resolution_status r);
        deduplication_key = none;
      })
      (update_order order.id always (resolved_row order r) (record db {
        disputes =
            update_many (λ d. d.id == dispute.id)
              (λ d. record d { is_open = false; resolution = some r }) db.disputes;
      }))

unfoldable pub resolve_found :
    Option DeliveryDispute → Order → DisputeResolution → Db → Db × Result Bool
resolve_found none order r db = (db, err HttpError.not_found)
resolve_found (some dispute) order r db = (resolve_commit order dispute r db, ok true)

resolve_read : Option Order → DisputeResolution → Db → Db × Result Bool
resolve_read none r db = (db, err HttpError.not_found)
resolve_read (some order) r db =
    if not (same order.status OrderStatus.delivery_disputed)
    then (db, err HttpError.bad_request)
    else resolve_found (newest_dispute (open_disputes order db)) order r db

-- `resolveDeliveryDispute`
unfoldable pub resolve_delivery_dispute : Identifier → DisputeResolution → Db → Db × Result Bool
unfolding resolve_read
resolve_delivery_dispute ident r db = resolve_read (find_order_by_identifier ident db) r db

-- ===== src/Orders/Update.antt =====
-- `updateStatus` of src/modules/orders/orders.service.ts, with the measurement reviews of an order's
-- items. `status_commit` is its transaction; it works from the order that was read before.
use fashion_ai_be.Prelude.{
  ℕ, ◌==◌, Bool, true, false, not, ◌&&◌, ◌||◌, Option, none, some, any, update_many, same, includes,
  if◌then◌else◌,
}
use fashion_ai_be.Schema.OrderStatus.{OrderStatus, status_key_keyed}
use fashion_ai_be.Schema.PaymentStatus.{PaymentStatus, payment_key_keyed}
use fashion_ai_be.Schema.RefundStatus.{RefundStatus, refund_key_keyed}
use fashion_ai_be.Schema.Shop.{
  Db, Order, OrderItem, ReviewStatus, open_review, submitted, resolved, closed, DisputeResolution,
  EventType,
}
use fashion_ai_be.Coupons.Redemptions.{release_order_coupon_redemption}
use fashion_ai_be.Orders.Flow.{collected_payment_statuses, may_change}
use fashion_ai_be.Orders.Tx.{
  Identifier, HttpError, Result, ok, err, find_order_by_identifier, update_order, always,
  expire_placeholders, create_order_event,
}

abbrev pub is_open_review : Option ReviewStatus → Bool
is_open_review (some open_review) = true
is_open_review _ = false

abbrev pub is_submitted_review : Option ReviewStatus → Bool
is_submitted_review (some submitted) = true
is_submitted_review _ = false

-- `assertNoOpenMeasurementReviews` passes
unfoldable pub has_open_review : ℕ → Db → Bool
has_open_review order_id db =
    any (λ (i : OrderItem). i.order_id == order_id && is_open_review i.measurement_review) db.items

-- `resolveSubmittedMeasurementReviews`
unfoldable pub resolve_submitted_reviews : ℕ → Db → Db
resolve_submitted_reviews order_id db = record db {
  items =
      update_many (λ i. i.order_id == order_id && is_submitted_review i.measurement_review)
        (λ i. record i { measurement_review = some resolved }) db.items;
}

-- `closeMeasurementReviews`
unfoldable pub close_reviews : ℕ → Db → Db
close_reviews order_id db = record db {
  items =
      update_many
        (λ i.
          i.order_id == order_id
          && (is_open_review i.measurement_review || is_submitted_review i.measurement_review))
        (λ i. record i { measurement_review = some closed }) db.items;
}

-- the open disputes of an order, resolved one way
unfoldable pub resolve_open_disputes : ℕ → DisputeResolution → Db → Db
resolve_open_disputes order_id resolution db = record db {
  disputes =
      update_many (λ d. d.order_id == order_id && d.is_open)
        (λ d. record d { is_open = false; resolution = some resolution }) db.disputes;
}

abbrev pub is_collected : Option PaymentStatus → Bool
is_collected none = false
is_collected (some s) = includes collected_payment_statuses s

-- `order.fulfillmentFlowVersion === 1`
abbrev pub is_new_flow : Order → Bool
is_new_flow o = elim o.fulfillment_flow_version [ none ↦ false | some v ↦ v == 1 ]

abbrev pub needs_refund_obligation : Order → OrderStatus → Bool
needs_refund_obligation order status =
    (same status OrderStatus.cancelled || same status OrderStatus.returned)
    && is_collected order.payment_status
    && same order.refund_status RefundStatus.none

abbrev pub status_row : Order → OrderStatus → Order → Order
status_row order status o = record o {
  status = status;
  refund_status =
      if needs_refund_obligation order status then RefundStatus.required else o.refund_status;
}

abbrev pub confirms_measurements : Order → OrderStatus → Bool
confirms_measurements order status =
    is_new_flow order
    && same status OrderStatus.measurement_confirmed
    && same order.status OrderStatus.measurement_review

-- what the transaction does before it changes the order
unfoldable pub status_prepare : Order → OrderStatus → Db → Db
status_prepare order status db =
    let db₁ =
      if confirms_measurements order status then resolve_submitted_reviews order.id db else db in
    let db₂ =
      if same order.status OrderStatus.measurement_review && same status OrderStatus.cancelled
      then close_reviews order.id db₁
      else db₁ in
    if same order.status OrderStatus.delivery_disputed
      && (same status OrderStatus.completed || same status OrderStatus.cancelled)
    then resolve_open_disputes order.id
        (if same status OrderStatus.completed
          then DisputeResolution.admin_confirmed_received
          else DisputeResolution.refunded)
        db₂
    else db₂

-- what it does after: an unpaid order that is cancelled gives back what it held
unfoldable pub status_finish : Order → OrderStatus → Db → Db
status_finish order status db =
    let db₁ =
      if same status OrderStatus.cancelled && not (is_collected order.payment_status)
      then (release_order_coupon_redemption order.id (expire_placeholders order.id db)).0
      else db in
    create_order_event
      (record {
        order_id = order.id;
        type = EventType.status_changed;
        from_status = some order.status;
        to_status = some status;
        deduplication_key = none;
      })
      db₁

unfoldable pub status_commit : Order → OrderStatus → Db → Db
status_commit order status db =
    status_finish order status
      (update_order order.id always (status_row order status) (status_prepare order status db))

abbrev expectation_fails : Option OrderStatus → Order → Bool
expectation_fails none o = false
expectation_fails (some expected) o = not (same expected o.status)

-- the tests of `updateStatus` in their order; `ok false` is the answer for an unchanged status
unfoldable pub status_check : Order → OrderStatus → Option OrderStatus → Db → Result Bool
status_check order status expected db =
    if same order.status status
    then ok false
    else if expectation_fails expected order
    then err HttpError.conflict
    else if not (may_change (is_new_flow order) order.status status)
    then err HttpError.bad_request
    else if confirms_measurements order status && has_open_review order.id db
    then err HttpError.bad_request
    else ok true

-- the rest of `updateStatus` after its tests
unfoldable pub status_decided : Result Bool → Order → OrderStatus → Db → Db × Result Bool
status_decided (err e) order status db = (db, err e)
status_decided (ok false) order status db = (db, ok false)
status_decided (ok true) order status db = (status_commit order status db, ok true)

status_read : Option Order → OrderStatus → Option OrderStatus → Db → Db × Result Bool
status_read none status expected db = (db, err HttpError.not_found)
status_read (some order) status expected db =
    status_decided (status_check order status expected db) order status db

-- `updateStatus`; the email, the notification and the answer are left out
unfoldable pub update_status : Identifier → OrderStatus → Option OrderStatus → Db → Db × Result Bool
unfolding status_read
update_status ident status expected db =
    status_read (find_order_by_identifier ident db) status expected db

-- ===== src/Orders/Flow.antt =====
-- The order statuses and their transitions: src/modules/orders/constants/order-flow.constants.ts,
-- src/common/constants/order.constants.ts and
-- src/modules/orders/utils/shipment-order-status.util.ts.
use fashion_ai_be.Prelude.{
  ℕ, ◌*◌, Bool, true, false, not, ◌&&◌, ◌||◌, Option, none, some, List, [], ◌∷◌, find_many,
  includes, same, if◌then◌else◌,
}
use fashion_ai_be.Schema.OrderStatus.{OrderStatus, status_key_keyed}
use fashion_ai_be.Schema.PaymentStatus.{PaymentStatus}
use fashion_ai_be.Schema.RefundStatus.{RefundStatus}

abbrev pub unpaid_order_ttl_ms : ℕ
unpaid_order_ttl_ms = 24 * 60 * 60 * 1000

abbrev pub unpaid_order_expiry_batch : ℕ
unpaid_order_expiry_batch = 100

abbrev pub delivery_dispute_window_ms : ℕ
delivery_dispute_window_ms = 7 * 24 * 60 * 60 * 1000

-- `ORDER_STATUS_TRANSITIONS`
unfoldable pub order_status_transitions : OrderStatus → List OrderStatus
order_status_transitions OrderStatus.created =
    OrderStatus.measurement_review ∷ OrderStatus.cancelled ∷ OrderStatus.expired
    ∷ OrderStatus.failed ∷ []
order_status_transitions OrderStatus.pending_payment =
    OrderStatus.measurement_review ∷ OrderStatus.cancelled ∷ OrderStatus.expired
    ∷ OrderStatus.failed ∷ []
order_status_transitions OrderStatus.pending =
    OrderStatus.cancelled ∷ OrderStatus.expired ∷ OrderStatus.failed ∷ []
order_status_transitions OrderStatus.paid =
    OrderStatus.measurement_review ∷ OrderStatus.cancelled ∷ []
order_status_transitions OrderStatus.measurement_review =
    OrderStatus.measurement_confirmed ∷ OrderStatus.cancelled ∷ []
order_status_transitions OrderStatus.measurement_confirmed =
    OrderStatus.tailoring ∷ OrderStatus.cancelled ∷ []
order_status_transitions OrderStatus.tailoring = OrderStatus.ready_to_ship ∷ []
order_status_transitions OrderStatus.quality_check =
    OrderStatus.ready_to_ship ∷ OrderStatus.tailoring ∷ []
order_status_transitions OrderStatus.processing =
    OrderStatus.measurement_review ∷ OrderStatus.ready_to_ship ∷ OrderStatus.cancelled ∷ []
order_status_transitions OrderStatus.ready_to_ship =
    OrderStatus.delivery_disputed ∷ OrderStatus.cancelled ∷ []
order_status_transitions OrderStatus.confirmed =
    OrderStatus.measurement_review ∷ OrderStatus.ready_to_ship ∷ OrderStatus.cancelled ∷ []
order_status_transitions OrderStatus.shipping =
    OrderStatus.delivered ∷ OrderStatus.delivery_disputed ∷ OrderStatus.return_requested
    ∷ OrderStatus.return_approved ∷ OrderStatus.returning ∷ OrderStatus.returned ∷ []
order_status_transitions OrderStatus.delivered =
    OrderStatus.delivery_disputed ∷ OrderStatus.completed ∷ OrderStatus.return_requested
    ∷ OrderStatus.return_approved ∷ OrderStatus.returning ∷ OrderStatus.returned ∷ []
order_status_transitions OrderStatus.delivery_disputed =
    OrderStatus.completed ∷ OrderStatus.cancelled ∷ []
order_status_transitions OrderStatus.completed =
    OrderStatus.return_requested ∷ OrderStatus.return_approved ∷ []
order_status_transitions OrderStatus.cancelled = []
order_status_transitions OrderStatus.return_requested =
    OrderStatus.return_approved ∷ OrderStatus.returning ∷ OrderStatus.returned
    ∷ OrderStatus.cancelled ∷ []
order_status_transitions OrderStatus.return_approved =
    OrderStatus.returning ∷ OrderStatus.returned ∷ []
order_status_transitions OrderStatus.returning = OrderStatus.returned ∷ []
order_status_transitions OrderStatus.returned = []
order_status_transitions OrderStatus.expired = []
order_status_transitions OrderStatus.failed = []

-- `COLLECTED_PAYMENT_STATUSES`
abbrev pub collected_payment_statuses : List PaymentStatus
collected_payment_statuses =
    PaymentStatus.paid ∷ PaymentStatus.partially_refunded ∷ PaymentStatus.refunded
    ∷ PaymentStatus.cod_collected ∷ []

abbrev pub delivery_confirmable_statuses : List OrderStatus
delivery_confirmable_statuses =
    OrderStatus.delivered ∷ OrderStatus.delivery_disputed ∷ OrderStatus.shipping
    ∷ OrderStatus.ready_to_ship ∷ []

abbrev pub delivery_disputable_statuses : List OrderStatus
delivery_disputable_statuses =
    OrderStatus.ready_to_ship ∷ OrderStatus.shipping ∷ OrderStatus.delivered ∷ []

abbrev pub open_refund_statuses : List RefundStatus
open_refund_statuses = RefundStatus.required ∷ RefundStatus.pending ∷ RefundStatus.processing ∷ []

-- The `allowed` of `updateStatus`: in the new flow CONFIRMED is filtered out.
unfoldable pub allowed_next : Bool → OrderStatus → List OrderStatus
unfolding order_status_transitions
allowed_next is_new_flow s =
    let all = order_status_transitions s in
    if is_new_flow then find_many (λ next. not (same next OrderStatus.confirmed)) all else all

-- `verifiedOnlyStatuses`
abbrev pub verified_only_statuses : List OrderStatus
verified_only_statuses =
    OrderStatus.shipping ∷ OrderStatus.delivered ∷ OrderStatus.paid ∷ OrderStatus.created ∷ []

-- The two tests of `updateStatus` on a change of status.
unfoldable pub may_change : Bool → OrderStatus → OrderStatus → Bool
unfolding allowed_next
may_change is_new_flow s next =
    includes (allowed_next is_new_flow s) next
    && not (is_new_flow && includes verified_only_statuses next)

-- `enum ShipmentStatus`
pub data ShipmentStatus : Type 0 where
  pending unknown ready_to_pick created picking picked shipping in_transit : ShipmentStatus
  delivering delivered delivery_failed returning returned cancelled failed : ShipmentStatus

-- `SHIPMENT_LEFT_SHOP.includes`
abbrev pub has_left_shop : ShipmentStatus → Bool
has_left_shop ShipmentStatus.picked = true
has_left_shop ShipmentStatus.shipping = true
has_left_shop ShipmentStatus.in_transit = true
has_left_shop ShipmentStatus.delivering = true
has_left_shop ShipmentStatus.delivery_failed = true
has_left_shop ShipmentStatus.returning = true
has_left_shop ShipmentStatus.returned = true
has_left_shop _ = false

is_delivered : ShipmentStatus → Bool
is_delivered ShipmentStatus.delivered = true
is_delivered _ = false

-- `orderStatusForShipment`
unfoldable pub order_status_for_shipment : OrderStatus → ShipmentStatus → Option OrderStatus
unfolding is_delivered
order_status_for_shipment order shipment =
    if is_delivered shipment
    then (if same order OrderStatus.ready_to_ship || same order OrderStatus.shipping
        then some OrderStatus.delivered
        else none)
    else if has_left_shop shipment
    then (if same order OrderStatus.ready_to_ship then some OrderStatus.shipping else none)
    else none

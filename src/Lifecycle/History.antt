-- ===== src/Lifecycle/History.antt =====
-- Every sequence of operations on the orders, from any state of the shop.
use fashion_ai_be.Prelude.{ℕ, Option}
use fashion_ai_be.Schema.OrderStatus.{OrderStatus}
use fashion_ai_be.Schema.Shop.{Db, Payment, Provider, DisputeResolution}
use fashion_ai_be.Orders.Tx.{Identifier}
use fashion_ai_be.Orders.Cancel.{cancel, expire_unpaid_orders}
use fashion_ai_be.Orders.Update.{update_status}
use fashion_ai_be.Orders.Delivery.{confirm_delivery, confirm_refund_received}
use fashion_ai_be.Orders.Disputes.{create_delivery_dispute, resolve_delivery_dispute}
use fashion_ai_be.Orders.Invariant.{IsShop}
use fashion_ai_be.Orders.Preservation.{
  cancel-IsShop, expire_unpaid_orders-IsShop, update_status-IsShop,
}
use fashion_ai_be.Orders.DeliveryPreservation.{
  confirm_delivery-IsShop, confirm_refund_received-IsShop, create_delivery_dispute-IsShop,
  resolve_delivery_dispute-IsShop,
}
use fashion_ai_be.Orders.Stage.{AllAdvance-refl, AllAdvance-trans}
use fashion_ai_be.Payments.Claim.{PaidAmount, process_order_success}
use fashion_ai_be.Payments.Void.{mark_order_cancelled}
use fashion_ai_be.Payments.Preservation.{process_order_success-IsShop, mark_order_cancelled-IsShop}
use fashion_ai_be.Lifecycle.OrderMoves.{
  Moves, cancel-Moves, expire_unpaid_orders-Moves, update_status-Moves,
}
use fashion_ai_be.Lifecycle.DeliveryMoves.{
  confirm_delivery-Moves, confirm_refund_received-Moves, create_delivery_dispute-Moves,
  resolve_delivery_dispute-Moves,
}
use fashion_ai_be.Lifecycle.PaymentMoves.{process_order_success-Moves, mark_order_cancelled-Moves}

-- A call of one of nine handlers, with its arguments: of a customer, of an admin, of the expiry job
-- or of a payment provider. `updateRefund` and `reopenRefundNotReceived` are not among them: the DTO
-- of the first admits NONE, which takes the refund of a cancelled order off record.
pub data Call : Type 0 where
  cancelling : ℕ → Identifier → Call
  expiring : ℕ → Call
  changing_status : Identifier → OrderStatus → Option OrderStatus → Call
  confirming_delivery : ℕ → Identifier → Call
  confirming_refund : ℕ → Identifier → ℕ → Call
  disputing : ℕ → Identifier → ℕ → Call
  resolving : Identifier → DisputeResolution → Call
  paying : ℕ → PaidAmount → Option Payment → Provider → ℕ → ℕ → Call
  voiding : ℕ → Provider → ℕ → ℕ → Call

-- The state that a call leaves, whatever it answers.
unfoldable pub run : Call → Db → Db
run (cancelling user_id ident) db = (cancel user_id ident db).0
run (expiring now) db = (expire_unpaid_orders now db).0
run (changing_status ident status expected) db = (update_status ident status expected db).0
run (confirming_delivery user_id ident) db = (confirm_delivery user_id ident db).0
run (confirming_refund user_id ident now) db = (confirm_refund_received user_id ident now db).0
run (disputing user_id ident now) db = (create_delivery_dispute user_id ident now db).0
run (resolving ident resolution) db = (resolve_delivery_dispute ident resolution db).0
run (paying order_code paid existing provider reference now) db =
    (process_order_success order_code paid existing provider reference now db).0
run (voiding order_code provider transaction now) db =
    (mark_order_cancelled order_code provider transaction now db).0

-- The states that calls lead to, one after the other.
pub data Reaches (db : Db) : Db → Type 0 where
  start : Reaches db db
  next : {db' : Db} → Reaches db db' → (call : Call) → Reaches db (run call db')

run-IsShop : (call : Call) (db : Db) → IsShop db → IsShop (run call db)
unfolding run
run-IsShop (cancelling user_id ident) db = cancel-IsShop user_id ident db
run-IsShop (expiring now) db = expire_unpaid_orders-IsShop now db
run-IsShop (changing_status ident status expected) db =
    update_status-IsShop ident status expected db
run-IsShop (confirming_delivery user_id ident) db = confirm_delivery-IsShop user_id ident db
run-IsShop (confirming_refund user_id ident now) db =
    confirm_refund_received-IsShop user_id ident now db
run-IsShop (disputing user_id ident now) db = create_delivery_dispute-IsShop user_id ident now db
run-IsShop (resolving ident resolution) db = resolve_delivery_dispute-IsShop ident resolution db
run-IsShop (paying order_code paid existing provider reference now) db =
    process_order_success-IsShop order_code paid existing provider reference now db
run-IsShop (voiding order_code provider transaction now) db =
    mark_order_cancelled-IsShop order_code provider transaction now db

run-Moves : (call : Call) (db : Db) → IsShop db → Moves db (run call db)
unfolding run
run-Moves (cancelling user_id ident) db h = cancel-Moves user_id ident db
run-Moves (expiring now) db h = expire_unpaid_orders-Moves now db
run-Moves (changing_status ident status expected) db h =
    update_status-Moves ident status expected db h
run-Moves (confirming_delivery user_id ident) db h = confirm_delivery-Moves user_id ident db h
run-Moves (confirming_refund user_id ident now) db h =
    confirm_refund_received-Moves user_id ident now db h
run-Moves (disputing user_id ident now) db h = create_delivery_dispute-Moves user_id ident now db
run-Moves (resolving ident resolution) db h = resolve_delivery_dispute-Moves ident resolution db h
run-Moves (paying order_code paid existing provider reference now) db h =
    process_order_success-Moves order_code paid existing provider reference now db
run-Moves (voiding order_code provider transaction now) db h =
    mark_order_cancelled-Moves order_code provider transaction now db h

-- Whatever calls of the nine handlers of `Call` (cancel, expireUnpaidOrders, updateStatus,
-- confirmDelivery, confirmRefundReceived, createDeliveryDispute, resolveDeliveryDispute,
-- processOrderSuccess and markOrderCancelled) are made one after the other on a shop that keeps the
-- invariant, with any arguments and answers, the invariant holds after them: order ids are unique, an
-- order that was paid for and cancelled or returned has a refund on record, and the coupon books are
-- balanced.
pub Reaches-IsShop : {db db' : Db} → IsShop db → Reaches db db' → IsShop db'
Reaches-IsShop h start = h
Reaches-IsShop h (next path call) = run-IsShop call _ (Reaches-IsShop h path)

-- The same calls lose no order, and each order is in the status that it had or at a later stage.
pub Reaches-Moves : {db db' : Db} → IsShop db → Reaches db db' → Moves db db'
Reaches-Moves {db} h start = AllAdvance-refl db.orders
Reaches-Moves {db} h (next {db'} path call) =
    AllAdvance-trans db.orders db'.orders (run call db').orders (Reaches-Moves h path)
      (run-Moves call db' (Reaches-IsShop h path))

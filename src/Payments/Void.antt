-- ===== src/Payments/Void.antt =====
-- `markOrderCancelled` of src/modules/payments/payments.service.ts: the provider reports that a
-- transaction was voided. Its transaction updates the order with no condition on its status.
use fashion_ai_be.Prelude.{ℕ, ◌==◌, Bool, true, false, not, Option, none, some, find, if◌then◌else◌}
use fashion_ai_be.Schema.OrderStatus.{OrderStatus}
use fashion_ai_be.Schema.PaymentStatus.{PaymentStatus}
use fashion_ai_be.Schema.Shop.{
  Db, Order, Payment, Provider, TransactionId, EventKey, EventType, OrderEvent,
}
use fashion_ai_be.Coupons.Redemptions.{release_order_coupon_redemption}
use fashion_ai_be.Orders.Tx.{HttpError, Result, ok, err, update_order, always}
use fashion_ai_be.Orders.Cancel.{is_unpaid}
use fashion_ai_be.Payments.Claim.{reusable, write_row, insert_payment, record_event}

abbrev pub void_row : Order → Order
void_row o = record o { status = OrderStatus.cancelled }

unfoldable pub void_payment : Option Payment → ℕ → Provider → ℕ → ℕ → Db → Option Db
unfolding insert_payment
void_payment (some p) order_id provider transaction now db =
    write_row p.id provider (TransactionId.reference transaction)
      (λ q. record q {
        provider = provider;
        transaction_id = some (TransactionId.reference transaction);
        status = PaymentStatus.expired;
      })
      db
void_payment none order_id provider transaction now db =
    insert_payment order_id provider (TransactionId.reference transaction) PaymentStatus.expired
      none none now db

unfoldable pub void_release : Option Db → ℕ → Option Db
void_release none order_id = none
void_release (some db) order_id = some (release_order_coupon_redemption order_id db).0

unfoldable pub void_finish : Option Db → ℕ → Provider → ℕ → ℕ → Option Db
unfolding void_release
void_finish none order_id provider transaction now = none
void_finish (some db) order_id provider transaction now =
    void_release (void_payment (reusable order_id provider db) order_id provider transaction now db)
      order_id

abbrev pub void_event : ℕ → Provider → ℕ → OrderEvent
void_event order_id provider transaction = record {
  order_id = order_id;
  type = EventType.payment_cancelled;
  from_status = some OrderStatus.created;
  to_status = some OrderStatus.cancelled;
  deduplication_key = some (EventKey.payment_cancelled provider transaction);
}

-- the transaction; `none` is a unique violation, which undoes it
unfoldable pub void_commit : ℕ → Provider → ℕ → ℕ → Db → Option Db
void_commit order_id provider transaction now db =
    void_finish
      (record_event (EventKey.payment_cancelled provider transaction)
        (void_event order_id provider transaction) (update_order order_id always void_row db))
      order_id provider transaction now

unfoldable pub void_settle : Option Db → Db → Db × Result Bool
void_settle none db = (db, err HttpError.internal)
void_settle (some db') db = (db', ok true)

void_read : Option Order → Provider → ℕ → ℕ → Db → Db × Result Bool
void_read none provider transaction now db = (db, err HttpError.not_found)
void_read (some order) provider transaction now db =
    if not (is_unpaid order)
    then (db, ok false)
    else void_settle (void_commit order.id provider transaction now db) db

-- `markOrderCancelled`; `ok false` is 'Order is not pending'
unfoldable pub mark_order_cancelled : ℕ → Provider → ℕ → ℕ → Db → Db × Result Bool
unfolding void_read
mark_order_cancelled order_code provider transaction now db =
    void_read (find (λ o. o.order_code == order_code) db.orders) provider transaction now db

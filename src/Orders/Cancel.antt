-- ===== src/Orders/Cancel.antt =====
-- `cancel` and `expireUnpaidOrders` of src/modules/orders/orders.service.ts. A handler reads the
-- order first and changes it in a transaction later; `_commit` is the transaction, which may run on
-- a database that has changed since the read.
use fashion_ai_be.Prelude.{
  ℕ, ◌+◌, ◌==◌, leb, ltb, Bool, not, ◌&&◌, ◌||◌, Option, none, some, List, [], ◌∷◌, take, length,
  find_many, same, if◌then◌else◌,
}
use fashion_ai_be.Schema.OrderStatus.{OrderStatus, status_key_keyed}
use fashion_ai_be.Schema.PaymentStatus.{PaymentStatus}
use fashion_ai_be.Schema.Shop.{Db, Order, OrderEvent, EventKey, EventType}
use fashion_ai_be.Coupons.Redemptions.{release_order_coupon_redemption}
use fashion_ai_be.Orders.Flow.{unpaid_order_ttl_ms, unpaid_order_expiry_batch}
use fashion_ai_be.Orders.Tx.{
  Identifier, HttpError, Result, ok, err, find_order_for_owner, update_order, count_order,
  is_pending, is_null, expire_placeholders, create_keyed_event, or_before,
}

-- the WHERE clause of the conditional update of `cancel`
abbrev pub is_cancellable : ℕ → Order → Bool
is_cancellable user_id o =
    o.user_id == user_id
    && same o.status OrderStatus.created
    && (is_pending o.payment_status || is_null o.payment_status)

abbrev pub cancel_row : Order → Order
cancel_row o = record o {
  status = OrderStatus.cancelled;
  checkout_url = none;
  checkout_expires_at = none;
}

abbrev pub cancel_event : ℕ → OrderEvent
cancel_event order_id = record {
  order_id = order_id;
  type = EventType.order_cancelled;
  from_status = some OrderStatus.created;
  to_status = some OrderStatus.cancelled;
  deduplication_key = some (EventKey.cancel_user order_id);
}

-- after the event: the coupon is released; no statement runs in an aborted transaction
unfoldable pub cancel_finish : ℕ → ℕ → Option Db → Option (Db × ℕ)
cancel_finish order_id n none = none
cancel_finish order_id n (some db) = some ((release_order_coupon_redemption order_id db).0, n)

-- the transaction of `cancel`, with the count of the orders that it changed; `none` is an exception
unfoldable pub cancel_attempt : ℕ → ℕ → Db → Option (Db × ℕ)
cancel_attempt user_id order_id db =
    let n = count_order order_id (is_cancellable user_id) db in
    let db₁ = update_order order_id (is_cancellable user_id) cancel_row db in
    if n == 0
    then some (db₁, n)
    else let db₂ = expire_placeholders order_id db₁ in
      cancel_finish order_id n
        (create_keyed_event (EventKey.cancel_user order_id) (cancel_event order_id) db₂)

abbrev or_undone : Db → Option (Db × ℕ) → Db × ℕ
or_undone db none = (db, 0)
or_undone db (some r) = r

-- what the transaction leaves, and the count of the orders that it changed
unfoldable pub cancel_commit : ℕ → ℕ → Db → Db × ℕ
cancel_commit user_id order_id db = or_undone db (cancel_attempt user_id order_id db)

abbrev pub cancel_answer : ℕ → Option (Db × ℕ) → Db → Db × Result ℕ
cancel_answer order_id none db = (db, err HttpError.internal)
cancel_answer order_id (some r) db =
    (r.0, if r.1 == 0 then err HttpError.bad_request else ok order_id)

cancel_read : ℕ → Option Order → Db → Db × Result ℕ
cancel_read user_id none db = (db, err HttpError.not_found)
cancel_read user_id (some order) db =
    if not (same order.status OrderStatus.created)
    then (db, err HttpError.bad_request)
    else cancel_answer order.id (cancel_attempt user_id order.id db) db

-- `cancel`; the notification and the answer to the client are left out
unfoldable pub cancel : ℕ → Identifier → Db → Db × Result ℕ
unfolding cancel_read
cancel user_id ident db = cancel_read user_id (find_order_for_owner user_id ident db) db

-- the condition on the status, which the update of `expireUnpaidOrders` repeats
abbrev pub is_unpaid : Order → Bool
is_unpaid o = same o.status OrderStatus.created && is_pending o.payment_status

-- `createdAt: { lt: now - UNPAID_ORDER_TTL_MS }`
abbrev pub is_overdue : ℕ → Order → Bool
is_overdue now o = is_unpaid o && ltb (o.created_at + unpaid_order_ttl_ms) now

abbrev pub expire_row : Order → Order
expire_row o = record o {
  status = OrderStatus.cancelled;
  payment_status = some PaymentStatus.expired;
  checkout_url = none;
  checkout_expires_at = none;
}

abbrev pub expire_event : ℕ → OrderEvent
expire_event order_id = record {
  order_id = order_id;
  type = EventType.order_payment_expired;
  from_status = some OrderStatus.created;
  to_status = some OrderStatus.cancelled;
  deduplication_key = some (EventKey.payment_expired order_id);
}

-- The transaction of one round of `expireUnpaidOrders`. The event is its last statement: where it
-- aborts the transaction, the commit rolls back and the count is answered all the same.
unfoldable pub expire_commit : ℕ → Db → Db × ℕ
expire_commit order_id db =
    let n = count_order order_id is_unpaid db in
    let db₁ = update_order order_id is_unpaid expire_row db in
    if n == 0
    then (db₁, 0)
    else let db₂ = expire_placeholders order_id db₁ in
      let db₃ = (release_order_coupon_redemption order_id db₂).0 in
      let key = EventKey.payment_expired order_id in
      (or_before db (create_keyed_event key (expire_event order_id) db₃), n)

-- `orderBy: { createdAt: 'asc' }`, as an insertion sort
abbrev pub insert_by_age : Order → List Order → List Order
insert_by_age o [] = o ∷ []
insert_by_age o (x ∷ xs) =
    let rest = insert_by_age o xs in if leb o.created_at x.created_at then o ∷ x ∷ xs else x ∷ rest

abbrev pub sort_by_age : List Order → List Order
sort_by_age [] = []
sort_by_age (x ∷ xs) = insert_by_age x (sort_by_age xs)

unfoldable pub expiry_candidates : ℕ → Db → List Order
expiry_candidates now db =
    take unpaid_order_expiry_batch (sort_by_age (find_many (is_overdue now) db.orders))

-- the loop over the candidates, with the number of expired orders
unfoldable pub expire_each : List Order → ℕ → Db → Db × ℕ
expire_each [] expired db = (db, expired)
expire_each (o ∷ os) expired db =
    let (db', n) = expire_commit o.id db in
    expire_each os (if n == 0 then expired else expired + 1) db'

-- `expireUnpaidOrders`: the new state, `expired` and `remaining`
unfoldable pub expire_unpaid_orders : ℕ → Db → Db × ℕ × Bool
expire_unpaid_orders now db =
    let candidates = expiry_candidates now db in
    let (db', expired) = expire_each candidates 0 db in
    (db', expired, length candidates == unpaid_order_expiry_batch)

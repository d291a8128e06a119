-- ===== src/Payments/Claim.antt =====
-- `processOrderSuccess` and `markOrderCancelled` of src/modules/payments/payments.service.ts, with
-- src/modules/payments/utils/payment-keys.util.ts. `_commit` is a transaction, on an order that was
-- read before it. The failure log, the cart, the outbox and the messages are left out.
use fashion_ai_be.Prelude.{
  ℕ, ◌+◌, ◌/◌, ◌%◌, ◌==◌, leb, Bool, true, false, not, ◌&&◌, ◌||◌, Option, none, some, List, [],
  ◌∷◌, any, find, find_many, update_many, same, if◌then◌else◌,
}
use fashion_ai_be.Schema.OrderStatus.{OrderStatus}
use fashion_ai_be.Schema.PaymentStatus.{PaymentStatus, payment_key_keyed}
use fashion_ai_be.Schema.Members.{UserTier}
use fashion_ai_be.Schema.Shop.{
  Db, Order, Payment, Provider, same_provider, TransactionId, same_transaction, EventKey, EventType,
  OrderEvent,
}
use fashion_ai_be.Orders.Tx.{
  HttpError, Result, ok, err, update_order, count_order, is_null, has_event_key,
}
use fashion_ai_be.Orders.Cancel.{is_unpaid}
use fashion_ai_be.Subscriptions.Renew.{create_or_extend_subscription}

abbrev pub is_manual : Provider → Bool
is_manual Provider.manual_admin = true
is_manual _ = false

-- `paymentTransactionId`
abbrev pub payment_transaction_id : Provider → ℕ → ℕ → TransactionId
payment_transaction_id provider order_code reference =
    if is_manual provider
    then TransactionId.manual order_code reference
    else TransactionId.reference reference

-- `paymentSucceededEventKey`
abbrev pub payment_succeeded_event_key : Provider → ℕ → ℕ → EventKey
payment_succeeded_event_key provider order_id reference =
    if is_manual provider
    then EventKey.payment_manual order_id
    else EventKey.payment provider reference

abbrev pub has_transaction : Provider → TransactionId → Payment → Bool
has_transaction provider t p =
    same_provider p.provider provider
    && elim p.transaction_id [ none ↦ false | some u ↦ same_transaction u t ]

-- the first in age, `orderBy: { createdAt: 'asc' }`
abbrev pub older_of : Payment → Option Payment → Payment
older_of p none = p
older_of p (some q) = if leb p.created_at q.created_at then p else q

abbrev pub oldest : List Payment → Option Payment
oldest [] = none
oldest (p ∷ ps) = some (older_of p (oldest ps))

-- the PENDING payment that a transaction takes over
unfoldable pub reusable : ℕ → Provider → Db → Option Payment
reusable order_id provider db = oldest (
    find_many
      (λ p.
        p.order_id == order_id
        && same p.status PaymentStatus.pending
        && (same_provider p.provider provider
            || (is_null p.provider_payment_id && is_null p.transaction_id)))
      db.payments)

-- What a payment row is given; `none` is a violation of `@@unique([provider, transactionId])`.
abbrev pub write_row : ℕ → Provider → TransactionId → (Payment → Payment) → Db → Option Db
write_row id provider t f db =
    if any (λ p. not (p.id == id) && has_transaction provider t p) db.payments
    then none
    else some (record db { payments = update_many (λ p. p.id == id) f db.payments })

unfoldable pub insert_payment :
    ℕ → Provider → TransactionId → PaymentStatus → Option ℕ → Option ℕ → ℕ → Db → Option Db
insert_payment order_id provider t status amount paid_at now db =
    if any (has_transaction provider t) db.payments
    then none
    else some (record db {
      payments =
          record {
            id = db.next_id;
            order_id = order_id;
            provider = provider;
            transaction_id = some t;
            provider_payment_id = none;
            status = status;
            amount_vnd = amount;
            paid_at = paid_at;
            created_at = now;
          }
          ∷ db.payments;
      next_id = db.next_id + 1;
    })

take_reusable : Option Payment → Order → Provider → TransactionId → ℕ → Db → Option Db
unfolding insert_payment
take_reusable (some p) order provider t now db =
    write_row p.id provider t
      (λ q. record q {
        provider = provider;
        transaction_id = some t;
        status = PaymentStatus.paid;
        paid_at = some now;
        amount_vnd = some (order.amount / 100);
      })
      db
take_reusable none order provider t now db =
    insert_payment order.id provider t PaymentStatus.paid (some (order.amount / 100)) (some now) now
      db

-- the payment row of a successful payment
unfoldable pub record_payment : Option Payment → Order → Provider → ℕ → ℕ → Db → Option Db
unfolding take_reusable reusable
record_payment (some p) order provider reference now db =
    let t = payment_transaction_id provider order.order_code reference in
    write_row p.id p.provider t
      (λ q. record q { status = PaymentStatus.paid; transaction_id = some t; paid_at = some now })
      db
record_payment none order provider reference now db =
    take_reusable (reusable order.id provider db) order provider
      (payment_transaction_id provider order.order_code reference) now db

-- `orderEvent.create` without the catch: `none` is a second event under one key
unfoldable pub record_event : EventKey → OrderEvent → Db → Option Db
record_event k e db =
    if any (has_event_key k) db.events then none else some (record db { events = e ∷ db.events })

activate_plan : Option UserTier → Order → ℕ → Db → Db
activate_plan none order now db = db
activate_plan (some tier) order now db = record db {
  members = (create_or_extend_subscription order.user_id tier order.id now db.members).0;
}

abbrev pub paid_order_status : Order → OrderStatus
paid_order_status order = elim order.target_tier [
  | none ↦ OrderStatus.measurement_review
  | some _ ↦ OrderStatus.completed
]

abbrev pub claim_row : Order → Order → Order
claim_row order o = record o {
  status = paid_order_status order;
  payment_status = some PaymentStatus.paid;
  amount_paid_vnd = order.amount / 100;
  checkout_url = none;
  checkout_expires_at = none;
}

unfoldable pub finish_claim : Option Db → Order → Provider → ℕ → ℕ → Option Db
unfolding record_event activate_plan
finish_claim none order provider reference now = none
finish_claim (some db) order provider reference now =
    elim (record_event (payment_succeeded_event_key provider order.id reference)
      (record {
        order_id = order.id;
        type = EventType.payment_succeeded;
        from_status = some OrderStatus.created;
        to_status = some (paid_order_status order);
        deduplication_key = some (payment_succeeded_event_key provider order.id reference);
      })
      db) [ none ↦ none | some db' ↦ some (activate_plan order.target_tier order now db') ]

pub data Outcome : Type 0 where
  processed already_processed duplicate_payment : Outcome

-- a unique violation undoes the transaction
unfoldable pub settle : Option Db → Db → Db × Outcome
settle none db = (db, duplicate_payment)
settle (some db') db = (db', processed)

-- The transaction of `processOrderSuccess`. A lost claim and a unique violation change nothing.
unfoldable pub claim_commit : Order → Option Payment → Provider → ℕ → ℕ → Db → Db × Outcome
claim_commit order existing provider reference now db =
    if count_order order.id is_unpaid db == 0
    then (db, already_processed)
    else let db₁ = update_order order.id is_unpaid (claim_row order) db in
      settle
        (finish_claim (record_payment existing order provider reference now db₁) order provider
          reference now)
        db

-- The amount that a provider reports, in hundredths.
pub data PaidAmount : Type 0 where
  not_reported not_finite : PaidAmount
  reported : ℕ → PaidAmount

abbrev pub amount_matches : PaidAmount → Order → Bool
amount_matches PaidAmount.not_reported o = true
amount_matches PaidAmount.not_finite o = false
amount_matches (PaidAmount.reported n) o = n == o.amount

abbrev pub is_paid : Option PaymentStatus → Bool
is_paid none = false
is_paid (some s) = same s PaymentStatus.paid

-- the tests before the transaction; `BigInt` throws at an amount with a fraction
claim_read :
    Option Order → PaidAmount → Option Payment → Provider → ℕ → ℕ → Db → Db × Result Outcome
claim_read none paid existing provider reference now db = (db, err HttpError.not_found)
claim_read (some order) paid existing provider reference now db =
    if not (amount_matches paid order)
    then (db, err HttpError.bad_request)
    else if is_paid order.payment_status
    then (db, ok already_processed)
    else if not (is_unpaid order)
    then (db, err HttpError.bad_request)
    else if not (order.amount % 100 == 0)
    then (db, err HttpError.internal)
    else let (db', outcome) = claim_commit order existing provider reference now db in
      (db', ok outcome)

-- `processOrderSuccess`, where the caller has found the payment of `existingPaymentId`
unfoldable pub process_order_success :
    ℕ → PaidAmount → Option Payment → Provider → ℕ → ℕ → Db → Db × Result Outcome
unfolding claim_read
process_order_success order_code paid existing provider reference now db =
    claim_read (find (λ o. o.order_code == order_code) db.orders) paid existing provider reference
      now db

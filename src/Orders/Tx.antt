-- ===== src/Orders/Tx.antt =====
-- The statements that the order transactions are made of.
use fashion_ai_be.Prelude.{
  ℕ, ◌==◌, Bool, true, false, ◌&&◌, Option, none, some, ◌∷◌, any, find, count, update_many, same,
  if◌then◌else◌,
}
use fashion_ai_be.Schema.PaymentStatus.{PaymentStatus, payment_key_keyed}
use fashion_ai_be.Schema.Shop.{Db, Order, OrderEvent, EventKey, same_event_key}

-- The HTTP exceptions that a handler ends with; they undo its transaction.
pub data HttpError : Type 0 where
  not_found bad_request conflict internal : HttpError

pub data Result {ℓ} (A : Type ℓ) : Type ℓ where
  ok : A → Result A
  err : HttpError → Result A

-- What `resolveOrderWhere` makes of the text that the client sent.
pub data Identifier : Type 0 where
  uuid : ℕ → Identifier
  code : ℕ → Identifier
  unresolved : Identifier

abbrev pub identifies : Identifier → Order → Bool
identifies (Identifier.uuid k) o = o.id == k
identifies (Identifier.code c) o = o.order_code == c
identifies Identifier.unresolved o = false

-- `findOrderForOwner`
abbrev pub find_order_for_owner : ℕ → Identifier → Db → Option Order
find_order_for_owner user_id ident db =
    find (λ o. identifies ident o && o.user_id == user_id) db.orders

-- `findOrderByIdentifier`
abbrev pub find_order_by_identifier : Identifier → Db → Option Order
find_order_by_identifier ident db = find (identifies ident) db.orders

-- `order.updateMany` at one id, under a further condition: the new state and the count.
abbrev pub update_order : ℕ → (Order → Bool) → (Order → Order) → Db → Db
update_order k p f db = record db { orders = update_many (λ o. o.id == k && p o) f db.orders }

abbrev pub count_order : ℕ → (Order → Bool) → Db → ℕ
count_order k p db = count (λ o. o.id == k && p o) db.orders

abbrev pub always : Order → Bool
always o = true

-- `paymentStatus: PENDING` in a condition
abbrev pub is_pending : Option PaymentStatus → Bool
is_pending none = false
is_pending (some s) = same s PaymentStatus.pending

abbrev pub is_null {ℓ} : {A : Type ℓ} → Option A → Bool
is_null none = true
is_null (some _) = false

-- The placeholder payments of an order that no transaction has taken: PENDING becomes EXPIRED.
unfoldable pub expire_placeholders : ℕ → Db → Db
expire_placeholders order_id db = record db {
  payments =
      update_many
        (λ p.
          p.order_id == order_id && same p.status PaymentStatus.pending && is_null p.transaction_id)
        (λ p. record p { status = PaymentStatus.expired }) db.payments;
}

abbrev pub has_event_key : EventKey → OrderEvent → Bool
has_event_key k e = elim e.deduplication_key [ none ↦ false | some j ↦ same_event_key j k ]

-- `createOrderEvent` without a deduplication key
unfoldable pub create_order_event : OrderEvent → Db → Db
create_order_event e db = record db { events = e ∷ db.events }

-- `createOrderEvent` with a deduplication key. A second event under one key is a unique violation; it
-- is caught, but PostgreSQL has aborted the transaction by then: `none`.
unfoldable pub create_keyed_event : EventKey → OrderEvent → Db → Option Db
create_keyed_event k e db =
    if any (has_event_key k) db.events then none else some (record db { events = e ∷ db.events })

-- What an aborted transaction leaves is the state before it.
abbrev pub or_before : Db → Option Db → Db
or_before db none = db
or_before db (some db') = db'

-- ===== src/Payments/Race.antt =====
-- Several transactions on one unpaid order: a payment, a second payment, a cancellation by the
-- customer and the expiry job, in any order. Each is a conditional update, so one of them wins.
use fashion_ai_be.Prelude.{
  ℕ, ◌==◌, ◌≡◌, ◌≢◌, refl, sym, ap, ◌∙◌, inl, inr, Bool, false, Option, none, some, arith, Unique,
  find, All-find, All-found, Bool-cases, Option-cases,
}
use mathlib.Core.Option
use fashion_ai_be.Schema.OrderStatus.{status_key_keyed}
use fashion_ai_be.Schema.Shop.{Db, Order, Payment, Provider}
use fashion_ai_be.Orders.Tx.{HttpError, err, update_order, count_order}
use fashion_ai_be.Orders.Cancel.{
  cancel_commit, cancel_row, is_cancellable, is_unpaid, expire_commit,
}
use fashion_ai_be.Orders.Invariant.{IsShop, Frame, order_id_of}
use fashion_ai_be.Orders.Effects.{cancel_orders}
use fashion_ai_be.Orders.Winner.{
  order_at, count_order_met, count_order_lost, order_at-update, Unique-update_order,
}
use fashion_ai_be.Payments.Claim.{
  PaidAmount, amount_matches, is_paid, claim_row, claim_commit, processed, already_processed,
  record_payment, finish_claim, settle, process_order_success,
}
use fashion_ai_be.Payments.Preservation.{claim_finish-Frame}

-- A payment that went through has met the unpaid order and left it paid.
claim_met :
    (order : Order) (existing : Option Payment) (provider : Provider) (reference now : ℕ) (db : Db)
    → (claim_commit order existing provider reference now db).1 ≡ processed
    → (count_order order.id is_unpaid db == 0) ≡ false
unfolding claim_commit
claim_met order existing provider reference now db h = ground arith

settle-Frame :
    (r : Option Db) (db₁ db : Db)
    → ((db' : Db) → r ≡ some db' → Frame db₁ db')
    → (settle r db).1 ≡ processed
    → Frame db₁ (settle r db).0
unfolding settle
settle-Frame none db₁ db frame h = cc
settle-Frame (some db') db₁ db frame h = frame db' refl

claim-Frame :
    (order : Order) (existing : Option Payment) (provider : Provider) (reference now : ℕ) (db : Db)
    → (claim_commit order existing provider reference now db).1 ≡ processed
    → Frame
        (update_order order.id is_unpaid (claim_row order) db)
        (claim_commit order existing provider reference now db).0
unfolding claim_commit
claim-Frame order existing provider reference now db h =
    let db₁ = update_order order.id is_unpaid (claim_row order) db in
    let r =
      finish_claim (record_payment existing order provider reference now db₁) order provider
        reference now in
    let met = claim_met order existing provider reference now db h in
    rw met (
      settle-Frame r db₁ db
        (λ db' e. claim_finish-Frame existing order provider reference now db₁ db' e) (rw met at h))

-- The row of a paid order, and the unique ids, after a payment that went through.
pub claim_row_at :
    (order : Order) (existing : Option Payment) (provider : Provider) (reference now : ℕ) (db : Db)
    → IsShop db
    → (claim_commit order existing provider reference now db).1 ≡ processed
    → (o : Order) × (order_at order.id db ≡ some o)
      × (order_at order.id (claim_commit order existing provider reference now db).0
          ≡ some (claim_row order o))
      × Unique order_id_of (claim_commit order existing provider reference now db).0.orders
claim_row_at order existing provider reference now db h won =
    let frame = claim-Frame order existing provider reference now db won in
    let (o, found, unpaid) =
      count_order_met order.id is_unpaid db h.orders_unique
        (λ (e : count_order order.id is_unpaid db ≡ 0).
          ground (arith, claim_met order existing provider reference now db won)) in
    (
      o,
      found,
      rw (frame.orders) (
          order_at-update order.id is_unpaid db h.orders_unique (claim_row order) {o = o}
            (λ x. refl) found unpaid),
      rw (frame.orders)
          (Unique-update_order order.id is_unpaid db h.orders_unique (claim_row order) (λ x. refl)),
    )

claim_lost :
    (order : Order) (existing : Option Payment) (provider : Provider) (reference now : ℕ) (db : Db)
    → count_order order.id is_unpaid db ≡ 0
    → claim_commit order existing provider reference now db ≡ (db, already_processed)
unfolding claim_commit
claim_lost order existing provider reference now db h = rw h

expire_count : (k : ℕ) (db : Db) → (expire_commit k db).1 ≡ count_order k is_unpaid db
unfolding expire_commit
expire_count k db = ground arith

-- What is no longer unpaid is lost to the expiry job and to every payment.
lost_to_others :
    (order : Order) (db : Db) {o : Order}
    → Unique order_id_of db.orders
    → order_at order.id db ≡ some o
    → is_unpaid o ≡ false
    → ((expire_commit order.id db).1 ≡ 0)
      × ((existing : Option Payment) (provider : Provider) (reference now : ℕ)
          → claim_commit order existing provider reference now db ≡ (db, already_processed))
lost_to_others order db {o} u found paid =
    let none_met = count_order_lost order.id is_unpaid db u {o = o} found paid in
    (
      expire_count order.id db ∙ none_met,
      λ existing provider reference now.
          claim_lost order existing provider reference now db none_met,
    )

-- An order that a conditional update closed is lost to every later payment and to the expiry job.
closed_for_others :
    (order : Order) (p : Order → Bool) (f : Order → Order) (db db' : Db)
    → Unique order_id_of db.orders
    → ((o : Order) → (f o).id ≡ o.id)
    → ((o : Order) → is_unpaid (f o) ≡ false)
    → db'.orders ≡ (update_order order.id p f db).orders
    → count_order order.id p db ≢ 0
    → ((expire_commit order.id db').1 ≡ 0)
      × ((existing : Option Payment) (provider : Provider) (reference now : ℕ)
          → claim_commit order existing provider reference now db' ≡ (db', already_processed))
closed_for_others order p f db db' u keep closes same_orders met =
    let (o, found, holds) = count_order_met order.id p db u met in
    lost_to_others order db' {o = f o} (rw same_orders (Unique-update_order order.id p db u f keep))
      (rw same_orders (order_at-update order.id p db u f {o = o} keep found holds)) (closes o)

-- A payment of an order that is neither unpaid nor paid is refused.
refused_payment :
    (order_code : ℕ) (paid : PaidAmount) (existing : Option Payment) (provider : Provider)
    (reference now : ℕ) (db : Db) {o : Order}
    → find (λ x. x.order_code == order_code) db.orders ≡ some o
    → is_paid o.payment_status ≡ false
    → is_unpaid o ≡ false
    → process_order_success order_code paid existing provider reference now db
      ≡ (db, err HttpError.bad_request)
unfolding process_order_success
refused_payment order_code paid existing provider reference now db {o} found not_paid closed =
    elim (Bool-cases (amount_matches paid o)) [
      | inl matches ↦ rw found (rw (matches, not_paid, closed) refl)
      | inr differs ↦ rw found (rw differs refl)
    ]

-- The order that is read by its code is the one at its id.
read_by_code :
    (order_code k : ℕ) (db : Db) {o : Order}
    → Unique order_id_of db.orders
    → Option.map order_id_of (find (λ x. x.order_code == order_code) db.orders) ≡ some k
    → order_at k db ≡ some o
    → find (λ x. x.order_code == order_code) db.orders ≡ some o
read_by_code order_code k db {o} u h at =
    elim (Option-cases (find (λ x. x.order_code == order_code) db.orders)) [
      | inl absent ↦ absurd (ground (arith, rw absent at h))
      | inr (x, read) ↦
          let mine : order_id_of x ≡ k = ground (arith, rw read at h) in
          let mine_at : order_at (order_id_of x) db ≡ some x =
            All-find (λ y. order_at (order_id_of y) db ≡ some y) (λ y. y.order_code == order_code)
              db.orders (All-found order_id_of db.orders u) read in
          read ∙ sym mine_at ∙ ap (λ j. order_at j db) mine ∙ at
    ]

-- Once a cancellation by the customer went through: the expiry job changes no order; the transaction
-- of a payment that read the order before is answered as processed and changes nothing; and a payment
-- that reads the order after it, by the code of the order, is refused as a bad request and changes
-- nothing.
pub cancel_excludes_payment :
    (user_id order_code : ℕ) (order : Order) (db : Db)
    → IsShop db
    → (cancel_commit user_id order.id db).1 ≢ 0
    → Option.map order_id_of
        (find (λ x. x.order_code == order_code) (cancel_commit user_id order.id db).0.orders)
      ≡ some order.id
    → let db' = (cancel_commit user_id order.id db).0 in
      ((expire_commit order.id db').1 ≡ 0)
      × ((existing : Option Payment) (provider : Provider) (reference now : ℕ)
          → claim_commit order existing provider reference now db' ≡ (db', already_processed))
      × ((paid : PaidAmount) (existing : Option Payment) (provider : Provider) (reference now : ℕ)
          → process_order_success order_code paid existing provider reference now db'
            ≡ (db', err HttpError.bad_request))
cancel_excludes_payment user_id order_code order db h won by_code =
    let (same_orders, met) = cancel_orders user_id order.id db won in
    let db' = (cancel_commit user_id order.id db).0 in
    let (expiry, payments) =
      closed_for_others order (is_cancellable user_id) cancel_row db db' h.orders_unique (λ o. refl)
        (λ o. ground arith) same_orders met in
    let (o, found, holds) =
      count_order_met order.id (is_cancellable user_id) db h.orders_unique met in
    let at : order_at order.id db' ≡ some (cancel_row o) = rw same_orders (
      order_at-update order.id (is_cancellable user_id) db h.orders_unique cancel_row {o = o}
        (λ x. refl) found holds) in
    let u : Unique order_id_of db'.orders = rw same_orders (
      Unique-update_order order.id (is_cancellable user_id) db h.orders_unique cancel_row
        (λ x. refl)) in
    let read = read_by_code order_code order.id db' u by_code at in
    (
      expiry,
      payments,
      λ paid existing provider reference now.
          refused_payment order_code paid existing provider reference now db' {o = cancel_row o}
            read (ground arith) (ground arith),
    )

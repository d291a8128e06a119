-- ===== src/Payments/LateVoid.antt =====
-- The transaction of `markOrderCancelled` after a payment of the same order went through: it tests
-- neither the status nor the payment of the order that it cancels.
use fashion_ai_be.Prelude.{
  ℕ, ◌==◌, ◌≡◌, refl, ap, ◌∙◌, false, Option, none, some, arith, All-find, same,
}
use fashion_ai_be.Schema.RefundStatus.{RefundStatus, refund_key_keyed}
use fashion_ai_be.Schema.OrderStatus.{OrderStatus}
use fashion_ai_be.Schema.PaymentStatus.{PaymentStatus}
use fashion_ai_be.Schema.Shop.{Db, Order, Payment, Provider, EventKey}
use fashion_ai_be.Orders.Tx.{update_order, always}
use fashion_ai_be.Orders.Invariant.{IsOwed, IsShop, order_id_of, release-orders}
use fashion_ai_be.Orders.Winner.{order_at, order_at-update}
use fashion_ai_be.Payments.Claim.{claim_row, claim_commit, processed, reusable, record_event}
use fashion_ai_be.Payments.Void.{
  void_row, void_event, void_payment, void_release, void_finish, void_commit,
}
use fashion_ai_be.Payments.Preservation.{void_payment-Frame, record_event-Frame}
use fashion_ai_be.Payments.Race.{claim_row_at}

void_release-orders :
    (paid : Option Db) (k : ℕ) (db db' : Db)
    → ((d : Db) → paid ≡ some d → d.orders ≡ db.orders)
    → void_release paid k ≡ some db'
    → db'.orders ≡ db.orders
unfolding void_release
void_release-orders none k db db' same_orders h = cc
void_release-orders (some d) k db db' same_orders h =
    let e : db'.orders ≡ d.orders = ground (arith, release-orders k d) in e ∙ same_orders d refl

void_finish-orders :
    (recorded : Option Db) (k : ℕ) (provider : Provider) (transaction now : ℕ) (db db' : Db)
    → ((d : Db) → recorded ≡ some d → d.orders ≡ db.orders)
    → void_finish recorded k provider transaction now ≡ some db'
    → db'.orders ≡ db.orders
unfolding void_finish
void_finish-orders none k provider transaction now db db' same_orders h = cc
void_finish-orders (some d) k provider transaction now db db' same_orders h =
    void_release-orders (void_payment (reusable k provider d) k provider transaction now d) k d db'
      (λ d' e.
        (void_payment-Frame (reusable k provider d) k provider transaction now d d' e).orders)
      h
    ∙ same_orders d refl

void_commit-orders :
    (k : ℕ) (provider : Provider) (transaction now : ℕ) (db db' : Db)
    → void_commit k provider transaction now db ≡ some db'
    → db'.orders ≡ (update_order k always void_row db).orders
unfolding void_commit
void_commit-orders k provider transaction now db db' h =
    let db₁ = update_order k always void_row db in
    let key = EventKey.payment_cancelled provider transaction in
    void_finish-orders (record_event key (void_event k provider transaction) db₁) k provider
      transaction now db₁ db'
      (λ d e. (record_event-Frame key (void_event k provider transaction) db₁ d e).orders) h

-- A void that was let through on the order as it was read, and whose transaction goes through after a
-- payment of that order did, where no refund of the order was on record: the order is then CANCELLED
-- and PAID with no refund on record, which breaks the invariant of the shop.
pub late_void_breaks_IsShop :
    (order : Order) (existing : Option Payment) (provider : Provider) (reference now : ℕ) (db : Db)
    (voider : Provider) (transaction later : ℕ) (db'' : Db)
    → IsShop db
    → ((o : Order) → order_at order.id db ≡ some o → o.refund_status ≡ RefundStatus.none)
    → (claim_commit order existing provider reference now db).1 ≡ processed
    → void_commit order.id voider transaction later
        (claim_commit order existing provider reference now db).0
      ≡ some db''
    → ((o' : Order) × (order_at order.id db'' ≡ some o')
        × (o'.status ≡ OrderStatus.cancelled)
        × (o'.payment_status ≡ some PaymentStatus.paid)
        × (o'.refund_status ≡ RefundStatus.none))
      × ¬ IsShop db''
late_void_breaks_IsShop order existing provider reference now db voider transaction later db'' h
      fresh won voided =
    let (o, found₀, found, u) = claim_row_at order existing provider reference now db h won in
    let db' = (claim_commit order existing provider reference now db).0 in
    let at : order_at order.id db'' ≡ some (void_row (claim_row order o)) =
      rw (void_commit-orders order.id voider transaction later db' db'' voided) (
        order_at-update order.id always db' u void_row {o = claim_row order o} (λ x. refl) found
          refl) in
    let none_owed : o.refund_status ≡ RefundStatus.none = fresh o found₀ in
    (
      (void_row (claim_row order o), at, refl, refl, none_owed),
      λ broken.
          let owed : IsOwed (void_row (claim_row order o)) =
            All-find IsOwed (λ x. order_id_of x == order.id) db''.orders broken.owed at in
          let claimed : same o.refund_status RefundStatus.none ≡ false = owed refl refl in
          cc (ap (λ s. same s RefundStatus.none) none_owed),
    )

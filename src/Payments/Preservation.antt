-- ===== src/Payments/Preservation.antt =====
-- Recording a payment and voiding one keep the invariant of the order tables.
use fashion_ai_be.Prelude.{
  ℕ, ◌%◌, ◌==◌, if_first, ◌≡◌, refl, inl, inr, true, not, ◌&&◌, Option, none, some, arith, find,
  find_by-find, if◌then◌else◌, Bool-cases, Option-cases,
}
use fashion_ai_be.Schema.OrderStatus.{status_key_keyed}
use fashion_ai_be.Schema.Shop.{Db, Order, Payment, Provider, EventKey, OrderEvent}
use fashion_ai_be.Orders.Tx.{update_order, count_order, always}
use fashion_ai_be.Orders.Cancel.{is_unpaid}
use fashion_ai_be.Orders.Invariant.{
  IsOwed, IsShop, Frame, Frame-trans, Frame-IsShop, order_id_of, update_order-IsShop,
  update_read-IsShop, release-IsShop,
}
use fashion_ai_be.Payments.Claim.{
  PaidAmount, amount_matches, is_paid, claim_row, claim_commit, record_payment, record_event,
  reusable, finish_claim, settle, process_order_success,
}
use fashion_ai_be.Payments.Void.{
  void_event, void_row, void_payment, void_finish, void_settle, void_commit, mark_order_cancelled,
}

record_payment-Frame :
    (existing : Option Payment) (order : Order) (provider : Provider) (reference now : ℕ)
    (db db' : Db)
    → record_payment existing order provider reference now db ≡ some db'
    → Frame db db'
unfolding record_payment
record_payment-Frame none order provider reference now db db' h = ground arith
record_payment-Frame (some p) order provider reference now db db' h = ground arith

finish_claim-Frame :
    (order : Order) (provider : Provider) (reference now : ℕ) (db db' : Db)
    → finish_claim (some db) order provider reference now ≡ some db'
    → Frame db db'
unfolding finish_claim
finish_claim-Frame order provider reference now db db' h = ground arith

claim_row-IsOwed :
    (order : Order) (o : Order)
    → IsOwed o
    → IsOwed (if o.id == order.id && is_unpaid o then claim_row order o else o)
claim_row-IsOwed order o h = ground arith

-- All that follows the update of the order leaves the order tables alone.
recorded-Frame :
    (recorded : Option Db) (order : Order) (provider : Provider) (reference now : ℕ) (db₁ : Db)
    → ((db' : Db) → recorded ≡ some db' → Frame db₁ db')
    → (db' : Db) → finish_claim recorded order provider reference now ≡ some db'
    → Frame db₁ db'
unfolding finish_claim
recorded-Frame none order provider reference now db₁ frame db' h = cc
recorded-Frame (some db₂) order provider reference now db₁ frame db' h =
    Frame-trans db₁ db₂ db' (frame db₂ refl)
      (finish_claim-Frame order provider reference now db₂ db' h)

pub claim_finish-Frame :
    (existing : Option Payment) (order : Order) (provider : Provider) (reference now : ℕ)
    (db₁ db' : Db)
    → finish_claim
        (record_payment existing order provider reference now db₁)
        order
        provider
        reference
        now
      ≡ some db'
    → Frame db₁ db'
claim_finish-Frame existing order provider reference now db₁ =
    recorded-Frame (record_payment existing order provider reference now db₁) order provider
      reference now db₁
      (λ db' e. record_payment-Frame existing order provider reference now db₁ db' e)

settle-IsShop :
    (r : Option Db) (db₁ db : Db)
    → ((db' : Db) → r ≡ some db' → Frame db₁ db')
    → IsShop db₁
    → IsShop db
    → IsShop (settle r db).0
unfolding settle
settle-IsShop none db₁ db frame h₁ h = h
settle-IsShop (some db') db₁ db frame h₁ h = Frame-IsShop db₁ db' (frame db' refl) h₁

-- The transaction of a successful payment keeps the invariant, whatever was written since the order
-- was read.
claim_commit-IsShop :
    (order : Order) (existing : Option Payment) (provider : Provider) (reference now : ℕ) (db : Db)
    → IsShop db
    → IsShop (claim_commit order existing provider reference now db).0
unfolding claim_commit
claim_commit-IsShop order existing provider reference now db h =
    let db₁ = update_order order.id is_unpaid (claim_row order) db in
    let h₁ =
      update_order-IsShop order.id is_unpaid (claim_row order) db (λ o. refl)
        (claim_row-IsOwed order) h in
    elim (Bool-cases (count_order order.id is_unpaid db == 0)) [
      | inl lost ↦ rw lost h
      | inr met ↦ rw met (
          settle-IsShop _ db₁ db
            (λ db' e. claim_finish-Frame existing order provider reference now db₁ db' e) h₁ h)
    ]

-- `processOrderSuccess` keeps the invariant of the orders, whatever it answers.
pub process_order_success-IsShop :
    (order_code : ℕ) (paid : PaidAmount) (existing : Option Payment) (provider : Provider)
    (reference now : ℕ) (db : Db)
    → IsShop db
    → IsShop (process_order_success order_code paid existing provider reference now db).0
unfolding process_order_success
process_order_success-IsShop order_code paid existing provider reference now db h =
    elim (Option-cases (find (λ o. o.order_code == order_code) db.orders)) [
      | inl absent ↦ rw absent h
      | inr (order, found) ↦ rw found (
          if_first IsShop (not (amount_matches paid order)) _ _ h (
            if_first IsShop (is_paid order.payment_status) _ _ h (
              if_first IsShop (not (is_unpaid order)) _ _ h (
                if_first IsShop (not (order.amount % 100 == 0)) _ _ h
                  (claim_commit-IsShop order existing provider reference now db h)))))
    ]

pub void_payment-Frame :
    (p : Option Payment) (k : ℕ) (provider : Provider) (transaction now : ℕ) (db db' : Db)
    → void_payment p k provider transaction now db ≡ some db'
    → Frame db db'
unfolding void_payment
void_payment-Frame none k provider transaction now db db' h = ground arith
void_payment-Frame (some p) k provider transaction now db db' h = ground arith

pub record_event-Frame :
    (k : EventKey) (e : OrderEvent) (db db' : Db) → record_event k e db ≡ some db' → Frame db db'
unfolding record_event
record_event-Frame k e db db' h = ground arith

void_finish-IsShop :
    (k : ℕ) (provider : Provider) (transaction now : ℕ) (recorded : Option Db) (db₁ db : Db)
    → ((db' : Db) → recorded ≡ some db' → Frame db₁ db')
    → IsShop db₁
    → IsShop db
    → IsShop (void_settle (void_finish recorded k provider transaction now) db).0
unfolding void_settle void_finish
void_finish-IsShop k provider transaction now recorded db₁ db frame h₁ h =
    elim (Option-cases recorded) [
      | inl failed ↦ rw failed h
      | inr (db₂, e) ↦
          let h₂ = Frame-IsShop db₁ db₂ (frame db₂ e) h₁ in
          elim (Option-cases
            (void_payment (reusable k provider db₂) k provider transaction now db₂)) [
              | inl failed ↦ rw (e, failed) h
              | inr (db₃, e') ↦
                  rw (e, e')
                    (release-IsShop k db₃ (
                      Frame-IsShop db₂ db₃
                        (void_payment-Frame (reusable k provider db₂) k provider transaction now db₂
                          db₃ e')
                        h₂))
            ]
    ]

void_row-IsOwed : (o : Order) → is_unpaid o ≡ true → IsOwed (void_row o)
void_row-IsOwed o h = ground arith

-- `markOrderCancelled` keeps the invariant, where nothing is written between its read and its
-- transaction.
pub mark_order_cancelled-IsShop :
    (order_code : ℕ) (provider : Provider) (transaction now : ℕ) (db : Db)
    → IsShop db
    → IsShop (mark_order_cancelled order_code provider transaction now db).0
unfolding mark_order_cancelled void_commit
mark_order_cancelled-IsShop order_code provider transaction now db h =
    elim (Option-cases (find (λ o. o.order_code == order_code) db.orders)) [
      | inl absent ↦ rw absent h
      | inr (order, found) ↦ elim (Bool-cases (is_unpaid order)) [
        | inl unpaid ↦
            rw (found, unpaid)
              (void_finish-IsShop order.id provider transaction now
                (record_event (EventKey.payment_cancelled provider transaction)
                  (void_event order.id provider transaction)
                  (update_order order.id always void_row db))
                (update_order order.id always void_row db) db
                (λ db' e.
                  record_event-Frame (EventKey.payment_cancelled provider transaction)
                    (void_event order.id provider transaction)
                    (update_order order.id always void_row db) db' e)
                (update_read-IsShop order void_row db
                  (find_by-find order_id_of (λ o. o.order_code == order_code) db.orders
                    h.orders_unique found)
                  (λ o. refl) (λ _. void_row-IsOwed order unpaid) h)
                h)
        | inr other ↦ rw (found, other) h
      ]
    ]

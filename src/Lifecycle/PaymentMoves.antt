-- ===== src/Lifecycle/PaymentMoves.antt =====
-- A payment and a voided payment never move an order back.
use fashion_ai_be.Prelude.{
  ℕ, ◌%◌, ◌==◌, ◌≡◌, refl, inl, inr, true, not, Option, none, some, arith, find, find_by-find,
  if_first, Bool-cases, Option-cases,
}
use fashion_ai_be.Schema.OrderStatus.{status_key_keyed}
use fashion_ai_be.Schema.Shop.{Db, Order, Payment, Provider, EventKey}
use fashion_ai_be.Orders.Tx.{update_order, count_order, always}
use fashion_ai_be.Orders.Cancel.{is_unpaid}
use fashion_ai_be.Orders.Invariant.{IsShop, Frame, order_id_of, release-orders}
use fashion_ai_be.Orders.Stage.{Advances, update-AllAdvance, read-AllAdvance}
use fashion_ai_be.Payments.Claim.{
  PaidAmount, amount_matches, is_paid, claim_row, claim_commit, record_event, reusable, settle,
  process_order_success,
}
use fashion_ai_be.Payments.Void.{
  void_event, void_row, void_payment, void_finish, void_settle, void_commit, mark_order_cancelled,
}
use fashion_ai_be.Payments.Preservation.{claim_finish-Frame, record_event-Frame, void_payment-Frame}
use fashion_ai_be.Lifecycle.OrderMoves.{Moves, stay, Frame-Moves}

claim-Advances : (order o : Order) → is_unpaid o ≡ true → Advances o (claim_row order o)
claim-Advances order o h = ground arith

settle-Moves :
    (r : Option Db) (db₁ db : Db)
    → ((db' : Db) → r ≡ some db' → Frame db₁ db')
    → Moves db db₁
    → Moves db (settle r db).0
unfolding settle
settle-Moves none db₁ db frame h = stay db
settle-Moves (some db') db₁ db frame h = Frame-Moves db db₁ db' (frame db' refl) h

claim_commit-Moves :
    (order : Order) (existing : Option Payment) (provider : Provider) (reference now : ℕ) (db : Db)
    → Moves db (claim_commit order existing provider reference now db).0
unfolding claim_commit
claim_commit-Moves order existing provider reference now db =
    let db₁ = update_order order.id is_unpaid (claim_row order) db in
    let moved =
      update-AllAdvance order.id is_unpaid (claim_row order) db.orders (claim-Advances order) in
    elim (Bool-cases (count_order order.id is_unpaid db == 0)) [
      | inl lost ↦ rw lost (stay db)
      | inr met ↦ rw met (
          settle-Moves _ db₁ db
            (λ db' e. claim_finish-Frame existing order provider reference now db₁ db' e) moved)
    ]

pub process_order_success-Moves :
    (order_code : ℕ) (paid : PaidAmount) (existing : Option Payment) (provider : Provider)
    (reference now : ℕ) (db : Db)
    → Moves db (process_order_success order_code paid existing provider reference now db).0
unfolding process_order_success
process_order_success-Moves order_code paid existing provider reference now db =
    elim (Option-cases (find (λ o. o.order_code == order_code) db.orders)) [
      | inl absent ↦ rw absent (stay db)
      | inr (order, found) ↦ rw found (
          if_first (Moves db) (not (amount_matches paid order)) _ _ (stay db) (
            if_first (Moves db) (is_paid order.payment_status) _ _ (stay db) (
              if_first (Moves db) (not (is_unpaid order)) _ _ (stay db) (
                if_first (Moves db) (not (order.amount % 100 == 0)) _ _ (stay db)
                  (claim_commit-Moves order existing provider reference now db)))))
    ]

void-Advances : (o : Order) → is_unpaid o ≡ true → Advances o (void_row o)
void-Advances o h = ground arith

void_finish-Moves :
    (k : ℕ) (provider : Provider) (transaction now : ℕ) (recorded : Option Db) (db₁ db : Db)
    → ((db' : Db) → recorded ≡ some db' → Frame db₁ db')
    → Moves db db₁
    → Moves db (void_settle (void_finish recorded k provider transaction now) db).0
unfolding void_settle void_finish
void_finish-Moves k provider transaction now recorded db₁ db frame h =
    elim (Option-cases recorded) [
      | inl failed ↦ rw failed (stay db)
      | inr (db₂, e) ↦
          elim (Option-cases
            (void_payment (reusable k provider db₂) k provider transaction now db₂)) [
              | inl failed ↦ rw (e, failed) (stay db)
              | inr (db₃, e') ↦
                  rw (e, e', release-orders k db₃)
                    (Frame-Moves db db₂ db₃
                      (void_payment-Frame (reusable k provider db₂) k provider transaction now db₂
                        db₃ e')
                      (Frame-Moves db db₁ db₂ (frame db₂ e) h))
            ]
    ]

pub mark_order_cancelled-Moves :
    (order_code : ℕ) (provider : Provider) (transaction now : ℕ) (db : Db)
    → IsShop db
    → Moves db (mark_order_cancelled order_code provider transaction now db).0
unfolding mark_order_cancelled void_commit
mark_order_cancelled-Moves order_code provider transaction now db h =
    elim (Option-cases (find (λ o. o.order_code == order_code) db.orders)) [
      | inl absent ↦ rw absent (stay db)
      | inr (order, found) ↦ elim (Bool-cases (is_unpaid order)) [
        | inr other ↦ rw (found, other) (stay db)
        | inl unpaid ↦
            let db₁ = update_order order.id always void_row db in
            rw (found, unpaid)
              (void_finish-Moves order.id provider transaction now
                (record_event (EventKey.payment_cancelled provider transaction)
                  (void_event order.id provider transaction) db₁)
                db₁ db
                (λ db' e.
                  record_event-Frame (EventKey.payment_cancelled provider transaction)
                    (void_event order.id provider transaction) db₁ db' e)
                (read-AllAdvance order void_row db.orders h.orders_unique
                  (find_by-find order_id_of (λ o. o.order_code == order_code) db.orders
                    h.orders_unique found)
                  (void-Advances order unpaid)))
      ]
    ]

-- ===== src/Lifecycle/OrderMoves.antt =====
-- The operations of the orders service never move an order back.
use fashion_ai_be.Prelude.{
  ℕ, ◌<◌, ◌==◌, ◌≡◌, refl, ◌∙◌, inl, inr, Bool, true, false, not, ◌&&◌, Option, some, List, [], ◌∷◌,
  arith, find_by, find_by-find, same, if_first, if◌then◌else◌, Bool-cases, Option-cases, ◌+◌,
}
use fashion_ai_be.Schema.OrderStatus.{OrderStatus, status_key_keyed}
use fashion_ai_be.Schema.RefundStatus.{refund_key_keyed}
use fashion_ai_be.Schema.Shop.{Db, Order}
use fashion_ai_be.Orders.Flow.{may_change}
use fashion_ai_be.Orders.Tx.{
  Identifier, identifies, HttpError, Result, ok, err, find_order_for_owner,
  find_order_by_identifier,
}
use fashion_ai_be.Orders.Cancel.{
  cancel, cancel_attempt, cancel_answer, cancel_row, is_cancellable, is_unpaid, expire_row,
  expire_commit, expire_each, expire_unpaid_orders, expiry_candidates,
}
use fashion_ai_be.Orders.Update.{
  is_collected, is_new_flow, status_row, status_finish, status_commit, status_check, status_decided,
  update_status,
}
use fashion_ai_be.Orders.Invariant.{
  IsShop, Frame, order_id_of, release-orders, create_order_event-Frame, expire_placeholders-Frame,
}
use fashion_ai_be.Orders.Preservation.{prepare-Frame}
use fashion_ai_be.Orders.Effects.{
  cancel_outcomes, cancel_done-orders, expire_outcomes, expire_done-orders,
}
use fashion_ai_be.Orders.Stage.{
  stage, may_change-stage, AllAdvance, AllAdvance-refl, AllAdvance-trans, update-AllAdvance,
  read-AllAdvance,
}

-- No order of the first database has gone back in the second.
abbrev pub Moves : Db → Db → Type 0
Moves db db' = AllAdvance db.orders db'.orders

pub stay : (db : Db) → Moves db db
stay db = AllAdvance-refl db.orders

pub Frame-Moves : (db db₁ db₂ : Db) → Frame db₁ db₂ → Moves db db₁ → Moves db db₂
Frame-Moves db db₁ db₂ f h = rw (f.orders) h

cancel_answer-Moves :
    (user_id k : ℕ) (db : Db) → Moves db (cancel_answer k (cancel_attempt user_id k db) db).0
cancel_answer-Moves user_id k db = elim (cancel_outcomes user_id k db) [
  | inl undone ↦ rw undone (stay db)
  | inr there ↦ rw there (
      rw (cancel_done-orders user_id k db) (
        update-AllAdvance k (is_cancellable user_id) cancel_row db.orders
          (λ o e. (refl, inr (ground arith)))))
]

pub cancel-Moves :
    (user_id : ℕ) (ident : Identifier) (db : Db) → Moves db (cancel user_id ident db).0
unfolding cancel
cancel-Moves user_id ident db = elim (Option-cases (find_order_for_owner user_id ident db)) [
  | inl absent ↦ rw absent (stay db)
  | inr (order, found) ↦ rw found (
      if_first (Moves db) (not (same order.status OrderStatus.created)) _ _ (stay db)
        (cancel_answer-Moves user_id order.id db))
]

expire_commit-Moves : (k : ℕ) (db : Db) → Moves db (expire_commit k db).0
expire_commit-Moves k db = elim (expire_outcomes k db) [
  | inl (_, undone) ↦ rw undone (stay db)
  | inr there ↦ rw there (
      rw (expire_done-orders k db)
        (update-AllAdvance k is_unpaid expire_row db.orders (λ o e. (refl, inr (ground arith)))))
]

expire_each-Moves : (os : List Order) (n : ℕ) (db : Db) → Moves db (expire_each os n db).0
unfolding expire_each
expire_each-Moves [] n db = stay db
expire_each-Moves (o ∷ os) n db =
    AllAdvance-trans db.orders (expire_commit o.id db).0.orders _ (expire_commit-Moves o.id db) (
      expire_each-Moves os (if (expire_commit o.id db).1 == 0 then n else n + 1)
        (expire_commit o.id db).0)

pub expire_unpaid_orders-Moves : (now : ℕ) (db : Db) → Moves db (expire_unpaid_orders now db).0
unfolding expire_unpaid_orders
expire_unpaid_orders-Moves now db = expire_each-Moves (expiry_candidates now db) 0 db

finish-orders :
    (order : Order) (status : OrderStatus) (db : Db)
    → (status_finish order status db).orders ≡ db.orders
unfolding status_finish
finish-orders order status db =
    (create_order_event-Frame _ _).orders
    ∙ elim (Bool-cases
        (same status OrderStatus.cancelled && not (is_collected order.payment_status))) [
          | inl unpaid ↦
              rw unpaid (release-orders order.id _ ∙ (expire_placeholders-Frame order.id db).orders)
          | inr other ↦ rw other
        ]

third_test :
    (b₁ b₂ b₃ b₄ : Bool) (e₂ e₃ e₄ : HttpError)
    → (if b₁
        then ok false
        else if b₂
        then err e₂
        else if not b₃
        then err e₃
        else if b₄
        then err e₄
        else ok true)
      ≡ ok true
    → b₃ ≡ true
third_test b₁ b₂ true b₄ e₂ e₃ e₄ h = refl
third_test b₁ b₂ false b₄ e₂ e₃ e₄ h = ground arith

check_admits :
    (order : Order) (status : OrderStatus) (expected : Option OrderStatus) (db : Db)
    → status_check order status expected db ≡ ok true
    → may_change (is_new_flow order) order.status status ≡ true
unfolding status_check
check_admits order status expected db h =
    third_test _ _ (may_change (is_new_flow order) order.status status) _ _ _ _ h

decided-Moves :
    (r : Result Bool) (order : Order) (status : OrderStatus) (db : Db)
    → IsShop db
    → find_by order_id_of order.id db.orders ≡ some order
    → (r ≡ ok true → stage order.status < stage status)
    → Moves db (status_decided r order status db).0
unfolding status_decided status_commit
decided-Moves (err e) order status db h f later = stay db
decided-Moves (ok false) order status db h f later = stay db
decided-Moves (ok true) order status db h f later =
    rw (finish-orders order status _, (prepare-Frame order status db).orders)
      (read-AllAdvance order (status_row order status) db.orders h.orders_unique f
        (refl, inr (later refl)))

pub update_status-Moves :
    (ident : Identifier) (status : OrderStatus) (expected : Option OrderStatus) (db : Db)
    → IsShop db
    → Moves db (update_status ident status expected db).0
unfolding update_status
update_status-Moves ident status expected db h =
    elim (Option-cases (find_order_by_identifier ident db)) [
      | inl absent ↦ rw absent (stay db)
      | inr (order, found) ↦ rw found (
          decided-Moves (status_check order status expected db) order status db h
            (find_by-find order_id_of (identifies ident) db.orders h.orders_unique found)
            (λ e.
              may_change-stage (is_new_flow order) order.status status
                (check_admits order status expected db e)))
    ]

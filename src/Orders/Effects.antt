-- ===== src/Orders/Effects.antt =====
-- What the transactions of cancelling and expiring leave.
use fashion_ai_be.Prelude.{
  ℕ, ◌==◌, ◌≡◌, ◌≢◌, refl, ◌∙◌, ◌⊎◌, inl, inr, any, true, false, none, some, arith, if◌then◌else◌,
  Bool-cases,
}
use fashion_ai_be.Schema.Shop.{Db, EventKey, OrderEvent}
use fashion_ai_be.Orders.Tx.{
  update_order, count_order, expire_placeholders, create_order_event, create_keyed_event,
  has_event_key,
}
use fashion_ai_be.Coupons.Redemptions.{release_order_coupon_redemption}
use fashion_ai_be.Orders.Cancel.{
  cancel_attempt, cancel_answer, cancel_commit, cancel_event, cancel_finish, cancel_row,
  is_cancellable, is_unpaid, expire_commit, expire_event, expire_row,
}
use fashion_ai_be.Orders.Invariant.{
  release-orders, create_order_event-Frame, expire_placeholders-Frame,
}

pub keyed_event_cases :
    (k : EventKey) (e : OrderEvent) (db : Db)
    → ((any (has_event_key k) db.events ≡ true) × (create_keyed_event k e db ≡ none))
      ⊎ ((any (has_event_key k) db.events ≡ false)
          × (create_keyed_event k e db ≡ some (create_order_event e db)))
unfolding create_keyed_event create_order_event
keyed_event_cases k e db = elim (Bool-cases (any (has_event_key k) db.events)) [
  | inl taken ↦ inl (taken, rw taken refl)
  | inr free ↦ inr (free, rw free refl)
]

-- What a cancellation leaves whose event is not on record yet.
abbrev pub cancel_done : ℕ → ℕ → Db → Db
cancel_done user_id k db =
    let db₁ = update_order k (is_cancellable user_id) cancel_row db in
    if count_order k (is_cancellable user_id) db == 0
    then db₁
    else (release_order_coupon_redemption k
        (create_order_event (cancel_event k) (expire_placeholders k db₁))).0

-- A cancellation is undone or leaves what it was to leave.
pub cancel_outcomes :
    (user_id k : ℕ) (db : Db)
    → (cancel_attempt user_id k db ≡ none)
      ⊎ (cancel_attempt user_id k db
          ≡ some (cancel_done user_id k db, count_order k (is_cancellable user_id) db))
unfolding cancel_attempt cancel_finish
cancel_outcomes user_id k db = elim (Bool-cases (count_order k (is_cancellable user_id) db == 0)) [
  | inl none_met ↦ inr (rw none_met refl)
  | inr met ↦
      elim (keyed_event_cases (EventKey.cancel_user k) (cancel_event k)
        (expire_placeholders k (update_order k (is_cancellable user_id) cancel_row db))) [
          | inl (_, undone) ↦ inl (rw (met, undone) refl)
          | inr (_, there) ↦ inr (rw (met, there) refl)
        ]
]

pub cancel_done-orders :
    (user_id k : ℕ) (db : Db)
    → (cancel_done user_id k db).orders
      ≡ (update_order k (is_cancellable user_id) cancel_row db).orders
cancel_done-orders user_id k db =
    elim (Bool-cases (count_order k (is_cancellable user_id) db == 0)) [
      | inl none_met ↦ rw none_met
      | inr met ↦ rw met (
          release-orders k _
          ∙ (create_order_event-Frame _ _).orders
          ∙ (expire_placeholders-Frame k
              (update_order k (is_cancellable user_id) cancel_row db)).orders)
    ]

-- `cancel` leaves what its transaction leaves.
pub cancel_answer-state :
    (user_id k : ℕ) (db : Db)
    → (cancel_answer k (cancel_attempt user_id k db) db).0 ≡ (cancel_commit user_id k db).0
unfolding cancel_commit
cancel_answer-state user_id k db = elim (cancel_outcomes user_id k db) [
  | inl undone ↦ rw undone refl
  | inr there ↦ rw there refl
]

-- The table of the orders after a cancellation that changed some order.
pub cancel_orders :
    (user_id k : ℕ) (db : Db)
    → (cancel_commit user_id k db).1 ≢ 0
    → ((cancel_commit user_id k db).0.orders
        ≡ (update_order k (is_cancellable user_id) cancel_row db).orders)
      × (count_order k (is_cancellable user_id) db ≢ 0)
unfolding cancel_commit
cancel_orders user_id k db won = elim (cancel_outcomes user_id k db) [
  | inl undone ↦ absurd (won (rw undone refl))
  | inr there ↦ (rw there (cancel_done-orders user_id k db), λ e. won (rw there e))
]

-- A cancellation that meets no order changes none.
pub cancel_count_zero :
    (user_id k : ℕ) (db : Db)
    → count_order k (is_cancellable user_id) db ≡ 0
    → (cancel_commit user_id k db).1 ≡ 0
unfolding cancel_commit
cancel_count_zero user_id k db e = elim (cancel_outcomes user_id k db) [
  | inl undone ↦ rw undone refl
  | inr there ↦ rw there e
]

-- The statements before the event of a round leave the events as they are.
written_events :
    (k : ℕ) (db : Db)
    → (release_order_coupon_redemption k
        (expire_placeholders k (update_order k is_unpaid expire_row db))).0.events
      ≡ db.events
unfolding release_order_coupon_redemption expire_placeholders
written_events k db = ground arith

-- What a round of the expiry job leaves whose event is not on record yet.
abbrev pub expire_done : ℕ → Db → Db
expire_done k db =
    let db₁ = update_order k is_unpaid expire_row db in
    if count_order k is_unpaid db == 0
    then db₁
    else create_order_event (expire_event k)
        (release_order_coupon_redemption k (expire_placeholders k db₁)).0

-- A round of the expiry job is undone or leaves what it was to leave; it is undone only where its
-- event is on record.
pub expire_outcomes :
    (k : ℕ) (db : Db)
    → ((any (has_event_key (EventKey.payment_expired k)) db.events ≡ true)
        × ((expire_commit k db).0 ≡ db))
      ⊎ ((expire_commit k db).0 ≡ expire_done k db)
unfolding expire_commit
expire_outcomes k db = elim (Bool-cases (count_order k is_unpaid db == 0)) [
  | inl none_met ↦ inr (rw none_met refl)
  | inr met ↦
      let db₃ =
        (release_order_coupon_redemption k
          (expire_placeholders k (update_order k is_unpaid expire_row db))).0 in
      elim (keyed_event_cases (EventKey.payment_expired k) (expire_event k) db₃) [
        | inl (taken, undone) ↦ inl (rw (written_events k db) at taken, rw (met, undone) refl)
        | inr (_, there) ↦ inr (rw (met, there) refl)
      ]
]

pub expire_done-orders :
    (k : ℕ) (db : Db) → (expire_done k db).orders ≡ (update_order k is_unpaid expire_row db).orders
expire_done-orders k db = elim (Bool-cases (count_order k is_unpaid db == 0)) [
  | inl none_met ↦ rw none_met
  | inr met ↦ rw met (
      (create_order_event-Frame _ _).orders
      ∙ release-orders k _
      ∙ (expire_placeholders-Frame k (update_order k is_unpaid expire_row db)).orders)
]

-- The events of other orders' expiries are those from before the round.
pub expire_done-events :
    (j k : ℕ) (db : Db)
    → (k == j) ≡ false
    → any (has_event_key (EventKey.payment_expired j)) (expire_done k db).events
      ≡ any (has_event_key (EventKey.payment_expired j)) db.events
unfolding create_order_event
expire_done-events j k db other = elim (Bool-cases (count_order k is_unpaid db == 0)) [
  | inl none_met ↦ rw none_met refl
  | inr met ↦ rw (met, written_events k db) (ground arith)
]

-- ===== src/Orders/Expiry.antt =====
-- The job that closes unpaid orders closes the overdue ones and no others.
use fashion_ai_be.Prelude.{
  ℕ, ◌+◌, ◌==◌, ==_iff, ◌≡◌, refl, ◌∙◌, inl, inr, Bool, true, false, ◌&&◌, some, List, [], ◌∷◌,
  arith, All, All-map, All-zip, All-update_many, All-find_many, All-take, All-same_key, any,
  find_many, take, take_not_full, find_by-update_ne, ap, leb, if◌then◌else◌, Bool-cases,
}
use mathlib.Core.Path.{subst}
use fashion_ai_be.Schema.Shop.{Db, Order, EventKey}
use fashion_ai_be.Orders.Flow.{unpaid_order_expiry_batch}
use fashion_ai_be.Orders.Cancel.{
  is_unpaid, is_overdue, expire_row, expire_commit, expire_each, insert_by_age, sort_by_age,
  expiry_candidates, expire_unpaid_orders,
}
use fashion_ai_be.Orders.Invariant.{IsShop, order_id_of}
use fashion_ai_be.Orders.Tx.{has_event_key}
use fashion_ai_be.Orders.Effects.{
  expire_done, expire_outcomes, expire_done-orders, expire_done-events,
}
use fashion_ai_be.Orders.Winner.{order_at}

-- Sorting by age keeps what is in the list.
any-insert_by_age :
    (p : Order → Bool) (o : Order) (xs : List Order) → any p (insert_by_age o xs) ≡ any p (o ∷ xs)
any-insert_by_age p o [] = refl
any-insert_by_age p o (x ∷ xs) = ground (arith, any-insert_by_age p o xs)

any-sort_by_age : (p : Order → Bool) (xs : List Order) → any p (sort_by_age xs) ≡ any p xs
any-sort_by_age p [] = refl
any-sort_by_age p (x ∷ xs) =
    any-insert_by_age p x (sort_by_age xs) ∙ ground (arith, any-sort_by_age p xs)

All-insert_by_age {κ} :
    (P : Order → Type κ) (o : Order) (xs : List Order) → P o → All P xs → All P (insert_by_age o xs)
All-insert_by_age P o [] h hs = (h, tt)
All-insert_by_age P o (x ∷ xs) h hs = elim (Bool-cases (leb o.created_at x.created_at)) [
  | inl before ↦ rw before (h, hs)
  | inr after ↦ rw after (hs.0, All-insert_by_age P o xs h hs.1)
]

All-sort_by_age {κ} : (P : Order → Type κ) (xs : List Order) → All P xs → All P (sort_by_age xs)
All-sort_by_age P [] h = tt
All-sort_by_age P (x ∷ xs) h = All-insert_by_age P x (sort_by_age xs) h.0 (All-sort_by_age P xs h.1)

-- The id stands in the list.
abbrev HasId : List Order → Order → Type 0
HasId os o = any (λ x. x.id == o.id) os ≡ true

selected_HasId :
    (q : Order → Bool) (xs : List Order) → All (λ o. q o ≡ true → HasId (find_many q xs) o) xs
selected_HasId q [] = tt
selected_HasId q (x ∷ xs) = (
  (λ h. ground arith),
  All-map (λ o. q o ≡ true → HasId (find_many q xs) o) _ xs (λ o ih h. ground (arith, ih h))
      (selected_HasId q xs),
)

-- The event under which an expiry of the order is put on record is on record.
abbrev pub has_expiry : Db → Order → Bool
has_expiry db o = any (has_event_key (EventKey.payment_expired o.id)) db.events

-- An overdue order is still to come, and no expiry of it is on record.
abbrev Awaited : ℕ → List Order → Db → Order → Type 0
Awaited now os db o = is_overdue now o ≡ true → HasId os o × (has_expiry db o ≡ false)

undone_round :
    (now : ℕ) (x : Order) (os : List Order) (db : Db) (o : Order)
    → (has_expiry db x ≡ true)
    → Awaited now (x ∷ os) db o
    → Awaited now os db o
undone_round now x os db o taken f overdue = elim (Bool-cases (x.id == o.id)) [
  | inl mine ↦
      let same : x.id ≡ o.id = (==_iff x.id o.id).0 mine in
      let taken' : has_expiry db o ≡ true =
        subst (λ k. any (has_event_key (EventKey.payment_expired k)) db.events ≡ true) same taken in
      absurd (ground (arith, taken', (f overdue).1))
  | inr other ↦ (ground (arith, (f overdue).0), (f overdue).1)
]

done_round :
    (now : ℕ) (x : Order) (os : List Order) (db : Db) (o : Order)
    → Awaited now (x ∷ os) db o
    → Awaited now os (expire_done x.id db) (if o.id == x.id && is_unpaid o then expire_row o else o)
done_round now x os db o f = elim (Bool-cases (o.id == x.id && is_unpaid o)) [
  | inl met ↦ rw met (λ overdue. absurd (ground arith))
  | inr missed ↦ rw missed (λ overdue.
      let other : (x.id == o.id) ≡ false = ground arith in
      (ground (arith, (f overdue).0), expire_done-events o.id x.id db other ∙ (f overdue).1))
]

-- One round takes an order off the list of what is still overdue.
round-Awaited :
    (now : ℕ) (x : Order) (os : List Order) (db : Db)
    → All (Awaited now (x ∷ os) db) db.orders
    → All (Awaited now os (expire_commit x.id db).0) (expire_commit x.id db).0.orders
round-Awaited now x os db h = elim (expire_outcomes x.id db) [
  | inl (taken, undone) ↦
      rw undone (All-map _ (Awaited now os db) db.orders (λ o. undone_round now x os db o taken) h)
  | inr there ↦
      rw (there, expire_done-orders x.id db)
        (All-update_many _ (Awaited now os (expire_done x.id db)) (λ o. o.id == x.id && is_unpaid o)
          expire_row db.orders (done_round now x os db) h)
]

expire_each_complete :
    (now : ℕ) (os : List Order) (n : ℕ) (db : Db)
    → All (Awaited now os db) db.orders
    → All (λ o. is_overdue now o ≡ false) (expire_each os n db).0.orders
unfolding expire_each
expire_each_complete now [] n db h =
    All-map (Awaited now [] db) _ db.orders (λ o f. ground (arith, f)) h
expire_each_complete now (x ∷ os) n db h =
    expire_each_complete now os (if (expire_commit x.id db).1 == 0 then n else n + 1)
      (expire_commit x.id db).0 (round-Awaited now x os db h)

-- A run of `expireUnpaidOrders` that does not report a full batch, where no overdue order has its
-- expiry on record already, leaves no overdue order behind.
pub expire_unpaid_orders_complete :
    (now : ℕ) (db : Db)
    → All (λ o. is_overdue now o ≡ true → has_expiry db o ≡ false) db.orders
    → (expire_unpaid_orders now db).2 ≡ false
    → All (λ o. is_overdue now o ≡ false) (expire_unpaid_orders now db).0.orders
unfolding expire_unpaid_orders expiry_candidates
expire_unpaid_orders_complete now db unrecorded h =
    let found = find_many (is_overdue now) db.orders in
    expire_each_complete now (take unpaid_order_expiry_batch (sort_by_age found)) 0 db (
      rw (take_not_full unpaid_order_expiry_batch (sort_by_age found) h) (
        All-map
          (λ o.
            (is_overdue now o ≡ true → has_expiry db o ≡ false)
            × (is_overdue now o ≡ true → HasId found o))
          (Awaited now (sort_by_age found) db) db.orders
          (λ o f overdue. (any-sort_by_age (λ x. x.id == o.id) found ∙ f.1 overdue, f.0 overdue))
          (All-zip _ _ db.orders unrecorded (selected_HasId (is_overdue now) db.orders))))

-- A round leaves the orders of other ids alone.
round-other :
    (k j : ℕ) (db : Db) → (j == k) ≡ false → order_at k (expire_commit j db).0 ≡ order_at k db
round-other k j db other = elim (expire_outcomes j db) [
  | inl (_, undone) ↦ rw undone refl
  | inr there ↦
      rw (there, expire_done-orders j db)
        (find_by-update_ne order_id_of k j is_unpaid expire_row db.orders (λ o. refl) other)
]

expire_each-other :
    (k : ℕ) (os : List Order) (n : ℕ) (db : Db)
    → All (λ x. (x.id == k) ≡ false) os
    → order_at k (expire_each os n db).0 ≡ order_at k db
unfolding expire_each
expire_each-other k [] n db h = refl
expire_each-other k (x ∷ os) n db h =
    expire_each-other k os (if (expire_commit x.id db).1 == 0 then n else n + 1)
      (expire_commit x.id db).0 h.1
    ∙ round-other k x.id db h.0

not_overdue :
    (now k : ℕ) (o : Order)
    → is_overdue now o ≡ false
    → (x : Order) → (x.id ≡ k → x ≡ o) × (is_overdue now x ≡ true)
    → (x.id == k) ≡ false
not_overdue now k o fresh x h = elim (Bool-cases (x.id == k)) [
  | inl mine ↦ let e : x ≡ o = h.0 ((==_iff x.id k).0 mine) in cc (ap (is_overdue now) e)
  | inr other ↦ other
]

-- Under the invariant, an order that is not overdue is as it was after a run of `expireUnpaidOrders`.
expire_unpaid_orders-only_overdue :
    (now k : ℕ) (db : Db) {o : Order}
    → IsShop db
    → order_at k db ≡ some o
    → is_overdue now o ≡ false
    → order_at k (expire_unpaid_orders now db).0 ≡ some o
unfolding expire_unpaid_orders expiry_candidates
expire_unpaid_orders-only_overdue now k db {o} h found fresh =
    let found_overdue = find_many (is_overdue now) db.orders in
    expire_each-other k (take unpaid_order_expiry_batch (sort_by_age found_overdue)) 0 db (
      All-take _ unpaid_order_expiry_batch (sort_by_age found_overdue) (
        All-sort_by_age _ found_overdue (
          All-map _ (λ x. (x.id == k) ≡ false) found_overdue (not_overdue now k o fresh)
            (All-find_many (λ x. x.id ≡ k → x ≡ o) (is_overdue now) db.orders
              (All-same_key order_id_of k o db.orders h.orders_unique found)))))
    ∙ found

-- ===== src/Orders/Winner.antt =====
-- A conditional update at one order id meets the order of that id, or none.
use fashion_ai_be.Prelude.{
  ℕ, ◌==◌, ◌≡◌, ◌≢◌, inl, inr, Bool, true, false, ◌&&◌, Option, some, arith, find_by,
  find_by-update_many, find_holds, count_by, Unique, Unique-update_many, Bool-cases, Option-cases,
}
use fashion_ai_be.Schema.Shop.{Db, Order}
use fashion_ai_be.Orders.Tx.{update_order, count_order}
use fashion_ai_be.Orders.Invariant.{order_id_of}

abbrev pub order_at : ℕ → Db → Option Order
order_at k db = find_by order_id_of k db.orders

module _ (k : ℕ) (p : Order → Bool) (db : Db) (u : Unique order_id_of db.orders) where
  -- An update that met something met the order of the id.
  pub count_order_met :
      count_order k p db ≢ 0 → (o : Order) × (order_at k db ≡ some o) × (p o ≡ true)
  count_order_met met = elim (Option-cases (order_at k db)) [
    | inl absent ↦ absurd (met (ground (arith, count_by order_id_of k p db.orders u)))
    | inr (o, found) ↦ elim (Bool-cases (p o)) [
      | inl holds ↦ (o, found, holds)
      | inr fails ↦ absurd (met (ground (arith, count_by order_id_of k p db.orders u)))
    ]
  ]

  -- An order that fails the condition is not met.
  pub count_order_lost : {o : Order} → order_at k db ≡ some o → p o ≡ false → count_order k p db ≡ 0
  count_order_lost found fails = ground (arith, count_by order_id_of k p db.orders u)

  pub order_at-update :
      (f : Order → Order) {o : Order}
      → ((x : Order) → (f x).id ≡ x.id)
      → order_at k db ≡ some o
      → p o ≡ true
      → order_at k (update_order k p f db) ≡ some (f o)
  order_at-update f {o} keep found holds =
      let mine : (o.id == k) ≡ true = find_holds (λ (x : Order). x.id == k) db.orders found in
      rw (
        find_by-update_many order_id_of k (λ x. x.id == k && p x) f db.orders keep,
        found,
        mine,
        holds,
      )

  pub Unique-update_order :
      (f : Order → Order)
      → ((x : Order) → (f x).id ≡ x.id)
      → Unique order_id_of (update_order k p f db).orders
  Unique-update_order f keep =
      Unique-update_many order_id_of (λ o. o.id == k && p o) f db.orders keep u

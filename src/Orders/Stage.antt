-- ===== src/Orders/Stage.antt =====
-- How far an order has come. Every operation on an order's status moves it forward.
use fashion_ai_be.Prelude.{
  ℕ, ◌<◌, ◌==◌, ==_iff, ◌≡◌, refl, sym, ◌∙◌, ◌⊎◌, inl, inr, Bool, true, false, ◌&&◌, some, List, [],
  ◌∷◌, arith, All, All-map, All-same_key, update_many, find_by, Unique, includes, if◌then◌else◌,
}
use mathlib.Core.Path.{subst}
use fashion_ai_be.Schema.OrderStatus.{OrderStatus, status_key_keyed}
use fashion_ai_be.Schema.Shop.{Order}
use fashion_ai_be.Orders.Flow.{may_change, order_status_for_shipment, ShipmentStatus}
use fashion_ai_be.Orders.Tx.{always}
use fashion_ai_be.Orders.Invariant.{order_id_of}

abbrev pub stage : OrderStatus → ℕ
stage OrderStatus.created = 0
stage OrderStatus.pending_payment = 0
stage OrderStatus.pending = 0
stage OrderStatus.paid = 0
stage OrderStatus.confirmed = 0
stage OrderStatus.processing = 0
stage OrderStatus.measurement_review = 1
stage OrderStatus.measurement_confirmed = 2
stage OrderStatus.quality_check = 2
stage OrderStatus.tailoring = 3
stage OrderStatus.ready_to_ship = 4
stage OrderStatus.shipping = 5
stage OrderStatus.delivered = 6
stage OrderStatus.delivery_disputed = 7
stage OrderStatus.completed = 8
stage OrderStatus.return_requested = 9
stage OrderStatus.return_approved = 10
stage OrderStatus.returning = 11
stage OrderStatus.returned = 12
stage OrderStatus.cancelled = 12
stage OrderStatus.expired = 12
stage OrderStatus.failed = 12

-- A change of status that `updateStatus` admits moves the order to a later stage, in the old flow
-- and in the new one.
pub may_change-stage :
    (is_new_flow : Bool) (s next : OrderStatus)
    → may_change is_new_flow s next ≡ true
    → stage s < stage next
unfolding may_change
may_change-stage is_new_flow OrderStatus.created next h = ground arith
may_change-stage is_new_flow _ next h = ground arith

-- A change that follows a shipment moves the order to a later stage.
order_status_for_shipment-stage :
    (s : OrderStatus) (shipment : ShipmentStatus) (next : OrderStatus)
    → order_status_for_shipment s shipment ≡ some next
    → stage s < stage next
unfolding order_status_for_shipment
order_status_for_shipment-stage OrderStatus.created shipment next h = ground arith
order_status_for_shipment-stage _ shipment next h = ground arith

-- In the new flow no admin change makes an order SHIPPING, DELIVERED, PAID, CREATED or CONFIRMED, and
-- none leaves CANCELLED, RETURNED, EXPIRED or FAILED.
may_change-verified :
    (s next : OrderStatus)
    → may_change true s next ≡ true
    → (includes
          (OrderStatus.shipping ∷ OrderStatus.delivered ∷ OrderStatus.paid ∷ OrderStatus.created
            ∷ OrderStatus.confirmed ∷ [])
          next
        ≡ false)
      × (includes
            (OrderStatus.cancelled ∷ OrderStatus.returned ∷ OrderStatus.expired ∷ OrderStatus.failed
              ∷ [])
            s
          ≡ false)
unfolding may_change
may_change-verified OrderStatus.created next h = ground arith
may_change-verified _ next h = ground arith

-- The row has the same status as before, or is at a later stage.
abbrev pub Advances : Order → Order → Type 0
Advances o o' = (o'.id ≡ o.id) × ((o'.status ≡ o.status) ⊎ (stage o.status < stage o'.status))

-- Two tables with the same orders, each of which has not gone back.
abbrev pub AllAdvance : List Order → List Order → Type 0
AllAdvance [] [] = Unit
AllAdvance [] (_ ∷ _) = ⊥
AllAdvance (_ ∷ _) [] = ⊥
AllAdvance (o ∷ os) (o' ∷ os') = Advances o o' × AllAdvance os os'

pub AllAdvance-refl : (os : List Order) → AllAdvance os os
AllAdvance-refl [] = tt
AllAdvance-refl (o ∷ os) = ((refl, inl refl), AllAdvance-refl os)

Advances-trans : (a b c : Order) → Advances a b → Advances b c → Advances a c
Advances-trans a b c (i, inl p) (j, inl q) = (j ∙ i, inl (q ∙ p))
Advances-trans a b c (i, inl p) (j, inr q) =
    (j ∙ i, inr (subst (λ s. stage s < stage c.status) p q))
Advances-trans a b c (i, inr p) (j, inl q) =
    (j ∙ i, inr (subst (λ s. stage a.status < stage s) (sym q) p))
Advances-trans a b c (i, inr p) (j, inr q) = (j ∙ i, inr (omega arith))

pub AllAdvance-trans :
    (xs ys zs : List Order) → AllAdvance xs ys → AllAdvance ys zs → AllAdvance xs zs
AllAdvance-trans [] [] [] p q = tt
AllAdvance-trans [] [] (_ ∷ _) p q = q
AllAdvance-trans [] (_ ∷ _) zs p q = absurd p
AllAdvance-trans (_ ∷ _) [] zs p q = absurd p
AllAdvance-trans (_ ∷ _) (_ ∷ _) [] p q = q
AllAdvance-trans (x ∷ xs) (y ∷ ys) (z ∷ zs) p q =
    (Advances-trans x y z p.0 q.0, AllAdvance-trans xs ys zs p.1 q.1)

update_many-AllAdvance :
    (p : Order → Bool) (f : Order → Order) (xs : List Order)
    → All (λ o. Advances o (if p o then f o else o)) xs
    → AllAdvance xs (update_many p f xs)
update_many-AllAdvance p f [] h = tt
update_many-AllAdvance p f (x ∷ xs) h = (h.0, update_many-AllAdvance p f xs h.1)

All-of {κ} : (P : Order → Type κ) (xs : List Order) → ((o : Order) → P o) → All P xs
All-of P [] h = tt
All-of P (x ∷ xs) h = (h x, All-of P xs h)

branch_Advances :
    (b : Bool) (o o' : Order) → (b ≡ true → Advances o o') → Advances o (if b then o' else o)
branch_Advances true o o' h = h refl
branch_Advances false o o' h = (refl, inl refl)

-- A conditional update moves what it meets forward if its assignment does under its condition.
pub update-AllAdvance :
    (k : ℕ) (p : Order → Bool) (f : Order → Order) (xs : List Order)
    → ((o : Order) → p o ≡ true → Advances o (f o))
    → AllAdvance xs (update_many (λ o. o.id == k && p o) f xs)
update-AllAdvance k p f xs h =
    update_many-AllAdvance (λ o. o.id == k && p o) f xs
      (All-of _ xs (λ o. branch_Advances (o.id == k && p o) o (f o) (λ e. h o (ground arith))))

-- An update of an order that was just read.
pub read-AllAdvance :
    (r : Order) (f : Order → Order) (xs : List Order)
    → Unique order_id_of xs
    → find_by order_id_of r.id xs ≡ some r
    → Advances r (f r)
    → AllAdvance xs (update_many (λ o. o.id == r.id && always o) f xs)
read-AllAdvance r f xs u found h =
    update_many-AllAdvance (λ o. o.id == r.id && always o) f xs
      (All-map (λ o. o.id ≡ r.id → o ≡ r) _ xs
        (λ o e.
          branch_Advances (o.id == r.id && always o) o (f o)
            (λ b. subst (λ x. Advances x (f x)) (sym (e ((==_iff o.id r.id).0 (ground arith)))) h))
        (All-same_key order_id_of r.id r xs u found))

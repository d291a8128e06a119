-- ===== src/Lifecycle/Phases.antt =====
-- The phases of an order, and that no call of the handlers takes an order back to an earlier one.
use fashion_ai_be.Prelude.{
  ℕ, ◌<◌, ◌≤◌, ◌≡◌, refl, sym, inl, inr, ltb, List, [], ◌∷◌, arith, if◌then◌else◌,
}
use mathlib.Core.Path.{subst}
use fashion_ai_be.Schema.OrderStatus.{OrderStatus}
use fashion_ai_be.Schema.Shop.{Db, Order}
use fashion_ai_be.Orders.Invariant.{IsShop}
use fashion_ai_be.Orders.Stage.{stage, Advances, AllAdvance}
use fashion_ai_be.Lifecycle.History.{Reaches, Reaches-Moves}

-- Placed or paid; in the workshop, from the review of the measurements to the parcel; on the way to
-- the customer or there; on the way back; and closed. Checking and tailoring share a phase: the
-- table of the admin's changes lets QUALITY_CHECK go to TAILORING as well as to READY_TO_SHIP.
abbrev pub phase : OrderStatus → ℕ
phase OrderStatus.created = 0
phase OrderStatus.pending_payment = 0
phase OrderStatus.pending = 0
phase OrderStatus.paid = 0
phase OrderStatus.confirmed = 0
phase OrderStatus.processing = 0
phase OrderStatus.measurement_review = 1
phase OrderStatus.measurement_confirmed = 1
phase OrderStatus.quality_check = 1
phase OrderStatus.tailoring = 1
phase OrderStatus.ready_to_ship = 1
phase OrderStatus.shipping = 2
phase OrderStatus.delivered = 2
phase OrderStatus.delivery_disputed = 2
phase OrderStatus.completed = 2
phase OrderStatus.return_requested = 3
phase OrderStatus.return_approved = 3
phase OrderStatus.returning = 3
phase OrderStatus.returned = 4
phase OrderStatus.cancelled = 4
phase OrderStatus.expired = 4
phase OrderStatus.failed = 4

-- The phase that a stage lies in.
abbrev phase_at : ℕ → ℕ
phase_at n =
    if ltb n 1 then 0 else if ltb n 5 then 1 else if ltb n 9 then 2 else if ltb n 12 then 3 else 4

phase-stage : (s : OrderStatus) → phase s ≡ phase_at (stage s)
phase-stage OrderStatus.created = refl
phase-stage _ = ground arith

stage_bound : (s : OrderStatus) → stage s ≤ 12
stage_bound OrderStatus.created = ground arith
stage_bound _ = ground arith

later_stage : (s t : OrderStatus) → stage s < stage t → (phase s ≤ phase t) × (phase s < 4)
later_stage s t h =
    rw (phase-stage s, phase-stage t) (ground (arith, stage_bound t), ground (arith, stage_bound t))

-- The row is of the same order, in a phase not before the one that it was in; and in the status that
-- it had where it was closed, that is RETURNED, CANCELLED, EXPIRED or FAILED.
abbrev pub KeepsPhase : Order → Order → Type 0
KeepsPhase o o' =
    (o'.id ≡ o.id)
    × (phase o.status ≤ phase o'.status)
    × (phase o.status ≡ 4 → o'.status ≡ o.status)

-- Two tables with the same orders, each of which keeps its phase.
abbrev pub AllKeepPhase : List Order → List Order → Type 0
AllKeepPhase [] [] = Unit
AllKeepPhase [] (_ ∷ _) = ⊥
AllKeepPhase (_ ∷ _) [] = ⊥
AllKeepPhase (o ∷ os) (o' ∷ os') = KeepsPhase o o' × AllKeepPhase os os'

advance-KeepsPhase : (o o' : Order) → Advances o o' → KeepsPhase o o'
advance-KeepsPhase o o' (i, inl same) =
    (i, subst (λ s. phase o.status ≤ phase s) (sym same) (omega arith), λ closed. same)
advance-KeepsPhase o o' (i, inr later) =
    let (up, open_yet) = later_stage o.status o'.status later in
    (i, up, λ closed. absurd (omega (arith, closed, open_yet)))

all-KeepPhase : (xs ys : List Order) → AllAdvance xs ys → AllKeepPhase xs ys
all-KeepPhase [] [] h = tt
all-KeepPhase [] (_ ∷ _) h = h
all-KeepPhase (_ ∷ _) [] h = h
all-KeepPhase (x ∷ xs) (y ∷ ys) h = (advance-KeepsPhase x y h.0, all-KeepPhase xs ys h.1)

-- Whatever calls of the nine handlers of `Call` are made one after the other on a shop that keeps the
-- invariant, no order is lost, none is in an earlier phase than before (placed or paid, in the
-- workshop, shipped to completed, on the way back, closed), and one that was closed, as RETURNED, CANCELLED, EXPIRED or
-- FAILED, has the status that it had.
pub Reaches-AllKeepPhase :
    {db db' : Db} → IsShop db → Reaches db db' → AllKeepPhase db.orders db'.orders
Reaches-AllKeepPhase {db} {db'} h path = all-KeepPhase db.orders db'.orders (Reaches-Moves h path)

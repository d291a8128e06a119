-- ===== src/Refunds/Books.antt =====
-- The refunds of an order as books: their sums, and what a change of one row does to a sum.
use fashion_ai_be.Prelude.{
  ℕ, ◌+◌, ◌≤◌, ◌==◌, ◌≡◌, refl, inl, inr, Bool, true, ◌&&◌, none, some, List, [], ◌∷◌, arith, All,
  find_many, find_by, Unique, Below, All-found, All-find_many, update_many, if◌then◌else◌,
  Bool-cases, Option-cases,
}
use mathlib.Core.Path.{subst}
use fashion_ai_be.Schema.RefundStatus.{refund_key_keyed}
use fashion_ai_be.Refunds.Desk.{
  Desk, Refund, RefundKind, same_kind, is_gateway_completed, is_manual_completed, is_manual_open,
  amount_of, collected_vnd, open_refund, first, requested_later,
}

abbrev pub refund_id_of : Refund → ℕ
refund_id_of r = r.id

-- What the customer has been given back: by hand and by the gateway.
abbrev pub refunded_vnd : Desk → ℕ
refunded_vnd d = amount_of is_manual_completed d.refunds + amount_of is_gateway_completed d.refunds

pub record IsCovered (d : Desk) : Type 0 where
  pub fresh : Below refund_id_of d.next_id d.refunds
  pub unique : Unique refund_id_of d.refunds
  pub covered : refunded_vnd d ≤ collected_vnd d

missing_sum :
    (k : ℕ) (p : Refund → Bool) (f : Refund → Refund) (rs : List Refund)
    → find_by refund_id_of k rs ≡ none
    → amount_of p (update_many (λ x. x.id == k) f rs) ≡ amount_of p rs
missing_sum k p f [] h = refl
missing_sum k p f (x ∷ xs) h = ground (arith, missing_sum k p f xs)

-- A change of one row changes a sum by what that row counts for.
pub row_sum :
    (k : ℕ) (p : Refund → Bool) (f : Refund → Refund) (r : Refund) (rs : List Refund)
    → Unique refund_id_of rs
    → find_by refund_id_of k rs ≡ some r
    → amount_of p (update_many (λ x. x.id == k) f rs) + (if p r then r.amount_vnd else 0)
      ≡ amount_of p rs + (if p (f r) then (f r).amount_vnd else 0)
row_sum k p f r [] u h = cc
row_sum k p f r (x ∷ xs) u h = elim (Bool-cases (x.id == k)) [
  | inl hit ↦ ground (arith, missing_sum k p f xs)
  | inr miss ↦ ground (arith, row_sum k p f r xs u.1)
]

pub first-All {κ} :
    (P : Refund → Type κ) (precedes : Refund → Refund → Bool) (rs : List Refund) {r : Refund}
    → All P rs
    → first precedes rs ≡ some r
    → P r
first-All P precedes [] h e = cc
first-All P precedes (x ∷ xs) {r} h e = elim (Option-cases (first precedes xs)) [
  | inl last ↦ let e' : x ≡ r = ground (arith, rw last at e) in subst P e' h.0
  | inr (t, found) ↦ elim (Bool-cases (precedes t x)) [
    | inl before ↦
        let e' : t ≡ r = ground (arith, rw (found, before) at e) in
        subst P e' (first-All P precedes xs {r = t} h.1 found)
    | inr after ↦ let e' : x ≡ r = ground (arith, rw (found, after) at e) in subst P e' h.0
  ]
]

pub open_found :
    (kind : RefundKind) (d : Desk) {r : Refund}
    → Unique refund_id_of d.refunds
    → open_refund kind d ≡ some r
    → (find_by refund_id_of r.id d.refunds ≡ some r) × (is_manual_open r ≡ true)
unfolding open_refund
open_found kind d {r} u e =
    let found =
      All-find_many (λ x. find_by refund_id_of x.id d.refunds ≡ some x)
        (λ x. is_manual_open x && same_kind x.kind kind) d.refunds
        (All-found refund_id_of d.refunds u) in
    let mine =
      first-All _ requested_later
        (find_many (λ x. is_manual_open x && same_kind x.kind kind) d.refunds) {r = r} found e in
    (mine.0, ground (arith, mine.1))

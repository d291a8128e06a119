-- ===== src/Refunds/Reopened.antt =====
-- What reopening a refund does to the books.
use fashion_ai_be.Prelude.{
  ℕ, ◌+◌, ◌<◌, ◌==◌, ◌≡◌, refl, inl, inr, leb, true, false, some, arith, All-found, All-find_many,
  All-update_many, Unique, Unique-update_many, find_by, find_many, if_first, Bool-cases,
  Option-cases,
}
use fashion_ai_be.Schema.RefundStatus.{RefundStatus, refund_key_keyed}
use fashion_ai_be.Orders.Tx.{ok}
use fashion_ai_be.Refunds.Desk.{
  Desk, Refund, RefundKind, is_manual_completed, is_gateway_completed, amount_of, collected_vnd,
}
use fashion_ai_be.Refunds.Books.{refund_id_of, refunded_vnd, IsCovered, row_sum, first-All}
use fashion_ai_be.Refunds.Reopen.{
  is_completed, completed_later, completed_refund, failed_row, fail_refund, reopen_commit,
  reopen_refund_not_received,
}

completed_found :
    (d : Desk) {r : Refund}
    → Unique refund_id_of d.refunds
    → completed_refund d ≡ some r
    → (find_by refund_id_of r.id d.refunds ≡ some r) × (is_completed r ≡ true)
unfolding completed_refund
completed_found d {r} u e =
    first-All _ completed_later (find_many is_completed d.refunds) {r = r}
      (All-find_many (λ x. find_by refund_id_of x.id d.refunds ≡ some x) is_completed d.refunds
        (All-found refund_id_of d.refunds u))
      e

-- A refund by hand that fails takes its amount out of the books, and the gateway's sum stays.
failed_sums :
    (r : Refund) (d : Desk)
    → Unique refund_id_of d.refunds
    → find_by refund_id_of r.id d.refunds ≡ some r
    → r.is_manual ≡ true
    → is_completed r ≡ true
    → (amount_of is_manual_completed (fail_refund r d).refunds + r.amount_vnd
        ≡ amount_of is_manual_completed d.refunds)
      × (amount_of is_gateway_completed (fail_refund r d).refunds
          ≡ amount_of is_gateway_completed d.refunds)
failed_sums r d u found manual done =
    let counted : is_manual_completed r ≡ true = ground arith in
    let uncounted : is_manual_completed (failed_row r) ≡ false = ground arith in
    let not_gateway : is_gateway_completed r ≡ false = ground arith in
    let not_gateway' : is_gateway_completed (failed_row r) ≡ false = ground arith in
    let by_hand =
      rw (counted, uncounted) at
        (row_sum r.id is_manual_completed failed_row r d.refunds u found) in
    let gateway =
      rw (not_gateway, not_gateway') at
        (row_sum r.id is_gateway_completed failed_row r d.refunds u found) in
    (omega arith, omega arith)

fail-IsCovered :
    (r : Refund) (d : Desk)
    → IsCovered d
    → find_by refund_id_of r.id d.refunds ≡ some r
    → r.is_manual ≡ true
    → is_completed r ≡ true
    → IsCovered (fail_refund r d)
fail-IsCovered r d h found manual done =
    let (by_hand, gateway) = failed_sums r d h.unique found manual done in
    record {
      fresh =
          All-update_many _ _ (λ x. x.id == r.id) failed_row d.refunds (λ x below. ground arith)
            h.fresh;
      unique =
          Unique-update_many refund_id_of (λ x. x.id == r.id) failed_row d.refunds (λ x. refl)
            h.unique;
      covered = ground (arith, h.covered, by_hand, gateway);
    }

-- Reopening a refund keeps what was refunded within what was collected, whatever it answers.
reopen-IsCovered : (d : Desk) → IsCovered d → IsCovered (reopen_refund_not_received d).0
unfolding reopen_refund_not_received reopen_commit
reopen-IsCovered d h = elim (Option-cases (completed_refund d)) [
  | inl absent ↦ rw absent h
  | inr (r, e) ↦ elim (Bool-cases r.is_manual) [
    | inr gateway ↦ rw (e, gateway) h
    | inl manual ↦
        let (found, done) = completed_found d {r = r} h.unique e in
        let h' = fail-IsCovered r d h found manual done in
        rw (e, manual)
          (if_first IsCovered
            (leb (collected_vnd d) (amount_of is_manual_completed (fail_refund r d).refunds)) _ _ h
            (record { fresh = h'.fresh; unique = h'.unique; covered = h'.covered }))
  ]
]

reopened :
    (d : Desk) (amount : ℕ) (kind : RefundKind)
    → IsCovered d
    → (reopen_refund_not_received d).1 ≡ ok (amount, kind)
    → let d' = (reopen_refund_not_received d).0 in
      (amount_of is_manual_completed d'.refunds + amount ≡ amount_of is_manual_completed d.refunds)
      × (amount_of is_gateway_completed d'.refunds ≡ amount_of is_gateway_completed d.refunds)
      × (amount_of is_manual_completed d'.refunds < collected_vnd d)
      × (d'.refund_status ≡ RefundStatus.required)
unfolding reopen_refund_not_received reopen_commit
reopened d amount kind h done = elim (Option-cases (completed_refund d)) [
  | inl absent ↦ absurd (ground (arith, rw absent at done))
  | inr (r, e) ↦ elim (Bool-cases r.is_manual) [
    | inr gateway ↦ absurd (ground (arith, rw (e, gateway) at done))
    | inl manual ↦
        let (found, completed) = completed_found d {r = r} h.unique e in
        let (by_hand, by_gateway) = failed_sums r d h.unique found manual completed in
        elim (Bool-cases
          (leb (collected_vnd d) (amount_of is_manual_completed (fail_refund r d).refunds))) [
            | inl full ↦ absurd (ground (arith, rw (e, manual, full) at done))
            | inr open_again ↦
                let answer : r.amount_vnd ≡ amount =
                  ground (arith, rw (e, manual, open_again) at done) in
                rw (e, manual, open_again)
                  (omega (arith, by_hand, answer), by_gateway, ground arith, refl)
          ]
  ]
]

-- Where the books are covered and a refund is reopened, what was refunded by hand falls by the amount
-- that is answered and is then below what was collected, what the gateway refunded stays, a refund
-- is required again, and the books are still covered.
pub reopen_takes_back :
    (d : Desk) (amount : ℕ) (kind : RefundKind)
    → IsCovered d
    → (reopen_refund_not_received d).1 ≡ ok (amount, kind)
    → let d' = (reopen_refund_not_received d).0 in
      (amount_of is_manual_completed d'.refunds + amount ≡ amount_of is_manual_completed d.refunds)
      × (amount_of is_gateway_completed d'.refunds ≡ amount_of is_gateway_completed d.refunds)
      × (amount_of is_manual_completed d'.refunds < collected_vnd d)
      × (d'.refund_status ≡ RefundStatus.required)
      × IsCovered d'
reopen_takes_back d amount kind h done =
    let (by_hand, gateway, below, required) = reopened d amount kind h done in
    (by_hand, gateway, below, required, reopen-IsCovered d h)

-- After a refund was reopened, the amount on the order falls short of what was refunded by all that
-- the gateway completed.
pub reopen_forgets_gateway :
    (d : Desk) (answer : ℕ × RefundKind)
    → (reopen_refund_not_received d).1 ≡ ok answer
    → let d' = (reopen_refund_not_received d).0 in
      d'.amount_refunded_vnd + amount_of is_gateway_completed d'.refunds ≡ refunded_vnd d'
unfolding reopen_refund_not_received reopen_commit
reopen_forgets_gateway d answer done = elim (Option-cases (completed_refund d)) [
  | inl absent ↦ absurd (ground (arith, rw absent at done))
  | inr (r, e) ↦ elim (Bool-cases r.is_manual) [
    | inr gateway ↦ absurd (ground (arith, rw (e, gateway) at done))
    | inl manual ↦
        elim (Bool-cases
          (leb (collected_vnd d) (amount_of is_manual_completed (fail_refund r d).refunds))) [
            | inl full ↦ absurd (ground (arith, rw (e, manual, full) at done))
            | inr open_again ↦ rw (e, manual, open_again) refl
          ]
  ]
]

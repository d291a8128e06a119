-- ===== src/Refunds/Records.antt =====
-- What an order says of its refunds after one of them was completed.
use fashion_ai_be.Prelude.{
  ℕ, ◌+◌, ◌-◌, ◌≡◌, refl, inl, inr, leb, ltb, true, false, ◌||◌, Option, none, some, arith, Unique,
  Bool-cases,
}
use fashion_ai_be.Schema.RefundStatus.{RefundStatus, refund_key_keyed}
use fashion_ai_be.Orders.Tx.{ok}
use fashion_ai_be.Refunds.Desk.{
  Desk, Refund, RefundKind, RefundOrderDto, resolve_refund_payment_status,
  resolve_manual_refund_amount, is_gateway_completed, is_manual_completed, amount_of, collected_vnd,
  open_refund, approved_amount, write_refund, processed_now,
}
use fashion_ai_be.Refunds.Update.{
  refund_refused, refund_row, refund_finish, refund_settle, update_refund, kind_of,
}
use fashion_ai_be.Refunds.Books.{refund_id_of, refunded_vnd, open_found, row_sum}

-- A refund by hand leaves those of the gateway as they are.
write-gateway :
    (current : Option Refund) (kind : RefundKind) (status : RefundStatus) (amount now : ℕ)
    (d : Desk)
    → open_refund kind d ≡ current
    → Unique refund_id_of d.refunds
    → amount_of is_gateway_completed (write_refund current kind status amount now d).refunds
      ≡ amount_of is_gateway_completed d.refunds
unfolding write_refund
write-gateway none kind status amount now d e u = omega arith
write-gateway (some r) kind status amount now d e u =
    let (found, is_open) = open_found kind d {r = r} u e in
    let f = λ (x : Refund). record x {
      amount_vnd = amount;
      status = status;
      processed_at = processed_now status now x.processed_at;
    } in
    let before : is_gateway_completed r ≡ false = ground arith in
    let after : is_gateway_completed (f r) ≡ false = ground arith in
    let sums = rw (before, after) at (row_sum r.id is_gateway_completed f r d.refunds u found) in
    omega arith

-- The order agrees with its refunds on the money that went back.
abbrev pub IsRecorded : Desk → Type 0
IsRecorded d =
    (d.amount_refunded_vnd ≡ refunded_vnd d)
    × (d.payment_status ≡ some (resolve_refund_payment_status (collected_vnd d) (refunded_vnd d)))

abbrev pub completing : Option RefundKind → Option ℕ → RefundOrderDto
completing kind amount_vnd = record {
  refund_status = RefundStatus.completed;
  kind = kind;
  amount_vnd = amount_vnd;
}

finish-IsRecorded :
    (kind : Option RefundKind) (amount_vnd : Option ℕ) (gateway : ℕ) (d : Desk)
    → ltb 0 (collected_vnd d) ≡ true
    → amount_of is_gateway_completed d.refunds ≡ gateway
    → IsRecorded (refund_finish (completing kind amount_vnd) gateway d)
unfolding refund_finish
finish-IsRecorded kind amount_vnd gateway d paid e = rw (paid, e) (refl, refl)

write-collected :
    (current : Option Refund) (kind : RefundKind) (status : RefundStatus) (amount now : ℕ)
    (d : Desk)
    → collected_vnd (write_refund current kind status amount now d) ≡ collected_vnd d
unfolding write_refund
write-collected none kind status amount now d = refl
write-collected (some r) kind status amount now d = refl

-- After a call of `updateRefund` that completes a refund, the amount on the order is the sum of the
-- refunds by hand and by the gateway, and its payment status follows from that sum.
pub update_refund-IsRecorded :
    (kind : Option RefundKind) (amount_vnd : Option ℕ) (receipts now : ℕ) (d : Desk)
    → Unique refund_id_of d.refunds
    → (update_refund (completing kind amount_vnd) receipts now d).1 ≡ ok true
    → IsRecorded (update_refund (completing kind amount_vnd) receipts now d).0
unfolding update_refund refund_settle refund_row
update_refund-IsRecorded kind amount_vnd receipts now d u answer =
    let dto = completing kind amount_vnd in
    let gateway = amount_of is_gateway_completed d.refunds in
    let current = open_refund (kind_of dto) d in
    let completed = amount_of is_manual_completed d.refunds + gateway in
    let amount =
      resolve_manual_refund_amount amount_vnd (approved_amount current) (collected_vnd d)
        completed in
    elim (Bool-cases (refund_refused RefundStatus.completed receipts d)) [
      | inl refused ↦ absurd (ground (arith, rw refused at answer))
      | inr passed ↦ elim (Bool-cases (leb amount 0 || ltb (collected_vnd d - completed) amount)) [
        | inl wrong ↦ absurd (ground (arith, rw (passed, wrong) at answer))
        | inr fits ↦
            let d' = write_refund current (kind_of dto) RefundStatus.completed amount now d in
            rw (passed, fits)
              (finish-IsRecorded kind amount_vnd gateway d'
                (rw (write-collected current (kind_of dto) RefundStatus.completed amount now d)
                  (ground arith))
                (write-gateway current (kind_of dto) RefundStatus.completed amount now d refl u))
      ]
    ]

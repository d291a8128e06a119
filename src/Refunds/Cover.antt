-- ===== src/Refunds/Cover.antt =====
-- An order never has more refunded than was collected.
use fashion_ai_be.Prelude.{
  ℕ, ◌+◌, ◌-◌, ◌≤◌, ◌==◌, ◌≡◌, refl, ◌∙◌, inl, inr, leb, ltb, Bool, true, false, ◌&&◌, ◌||◌, Option,
  none, some, arith, find_by, Unique, find_by_fresh, All-update_many, Below-suc, Unique-update_many,
  update_many, same, if◌then◌else◌, Bool-cases,
}
use fashion_ai_be.Schema.RefundStatus.{RefundStatus, refund_key_keyed}
use fashion_ai_be.Refunds.Desk.{
  Desk, Refund, RefundKind, RefundOrderDto, resolve_manual_refund_amount, moves_money,
  is_gateway_completed, is_manual_completed, is_manual_open, amount_of, collected_vnd, open_refund,
  approved_amount, write_refund, close_refund, processed_now,
}
use fashion_ai_be.Refunds.Update.{
  refund_refused, refund_row, refund_finish, refund_settle, update_refund, kind_of,
}
use fashion_ai_be.Refunds.Books.{refund_id_of, refunded_vnd, IsCovered, row_sum, open_found}

-- A refund that is completed now fits into what is left.
abbrev Fits : RefundStatus → ℕ → Desk → Type 0
Fits status amount d =
    same status RefundStatus.completed ≡ true → refunded_vnd d + amount ≤ collected_vnd d

new-IsCovered :
    (kind : RefundKind) (status : RefundStatus) (amount now : ℕ) (d : Desk)
    → Fits status amount d
    → IsCovered d
    → IsCovered (write_refund none kind status amount now d)
unfolding write_refund
new-IsCovered kind status amount now d fits h = record {
  fresh = (omega arith, Below-suc refund_id_of d.next_id d.refunds h.fresh);
  unique = (find_by_fresh refund_id_of d.next_id d.refunds h.fresh, h.unique);
  covered = ground (arith, h.covered);
}

-- The two sums after a change of an open refund.
open_sums :
    (r : Refund) (f : Refund → Refund) (d : Desk)
    → find_by refund_id_of r.id d.refunds ≡ some r
    → is_manual_open r ≡ true
    → (f r).is_manual ≡ r.is_manual
    → Unique refund_id_of d.refunds
    → refunded_vnd (record d { refunds = update_many (λ x. x.id == r.id) f d.refunds })
      ≡ refunded_vnd d + (if same (f r).status RefundStatus.completed then (f r).amount_vnd else 0)
open_sums r f d found is_open keep u =
    let manual : r.is_manual ≡ true = ground arith in
    let manual' : (f r).is_manual ≡ true = keep ∙ manual in
    let not_completed : is_manual_completed r ≡ false = ground arith in
    let not_gateway : is_gateway_completed r ≡ false = ground arith in
    let not_gateway' : is_gateway_completed (f r) ≡ false = ground arith in
    let completed' : is_manual_completed (f r) ≡ same (f r).status RefundStatus.completed =
      rw manual' refl in
    let by_hand =
      rw (not_completed, completed') at (row_sum r.id is_manual_completed f r d.refunds u found) in
    let gateway =
      rw (not_gateway, not_gateway') at (row_sum r.id is_gateway_completed f r d.refunds u found) in
    omega arith

row-IsCovered :
    (r : Refund) (f : Refund → Refund) (d : Desk)
    → find_by refund_id_of r.id d.refunds ≡ some r
    → is_manual_open r ≡ true
    → ((x : Refund) → ((f x).id ≡ x.id) × ((f x).is_manual ≡ x.is_manual))
    → Fits (f r).status (f r).amount_vnd d
    → IsCovered d
    → IsCovered (record d { refunds = update_many (λ x. x.id == r.id) f d.refunds })
row-IsCovered r f d found is_open keep fits h = record {
  fresh =
      All-update_many _ _ (λ x. x.id == r.id) f d.refunds (λ x below. ground (arith, keep x))
        h.fresh;
  unique =
      Unique-update_many refund_id_of (λ x. x.id == r.id) f d.refunds (λ x. (keep x).0) h.unique;
  covered =
      rw (open_sums r f d found is_open (keep r).1 h.unique) (ground (arith, h.covered, fits));
}

write-IsCovered :
    (current : Option Refund) (kind : RefundKind) (status : RefundStatus) (amount now : ℕ)
    (d : Desk)
    → open_refund kind d ≡ current
    → Fits status amount d
    → IsCovered d
    → IsCovered (write_refund current kind status amount now d)
unfolding write_refund
write-IsCovered none kind status amount now d e fits h =
    new-IsCovered kind status amount now d fits h
write-IsCovered (some r) kind status amount now d e fits h =
    let (found, is_open) = open_found kind d {r = r} h.unique e in
    row-IsCovered r
      (λ x. record x {
        amount_vnd = amount;
        status = status;
        processed_at = processed_now status now x.processed_at;
      })
      d found is_open (λ x. (refl, refl)) fits h

close-IsCovered :
    (current : Option Refund) (kind : RefundKind) (status : RefundStatus) (d : Desk)
    → open_refund kind d ≡ current
    → same status RefundStatus.completed ≡ false
    → IsCovered d
    → IsCovered (close_refund current status d)
unfolding close_refund
close-IsCovered none kind status d e other h = h
close-IsCovered (some r) kind status d e other h =
    let (found, is_open) = open_found kind d {r = r} h.unique e in
    row-IsCovered r (λ x. record x { status = status }) d found is_open (λ x. (refl, refl))
      (λ done. cc) h

finish-IsCovered :
    (dto : RefundOrderDto) (gateway : ℕ) (d : Desk)
    → IsCovered d
    → IsCovered (refund_finish dto gateway d)
unfolding refund_finish
finish-IsCovered dto gateway d h = record {
  fresh = h.fresh;
  unique = h.unique;
  covered = h.covered;
}

remaining_fits :
    (amount completed collected : ℕ) (b : Bool)
    → (leb amount 0 || (b && ltb (collected - completed) amount)) ≡ false
    → b ≡ true
    → completed + amount ≤ collected
remaining_fits amount completed collected b h done = ground arith

-- No call of `updateRefund` makes the sum of what was refunded, by hand and by the gateway, exceed
-- what was collected, where the gateway writes nothing during the call.
pub update_refund-IsCovered :
    (dto : RefundOrderDto) (receipts now : ℕ) (d : Desk)
    → IsCovered d
    → IsCovered (update_refund dto receipts now d).0
unfolding update_refund refund_settle refund_row
update_refund-IsCovered dto receipts now d h =
    let gateway = amount_of is_gateway_completed d.refunds in
    let current = open_refund (kind_of dto) d in
    let completed = amount_of is_manual_completed d.refunds + gateway in
    let amount =
      resolve_manual_refund_amount dto.amount_vnd (approved_amount current) (collected_vnd d)
        completed in
    let s = dto.refund_status in
    elim (Bool-cases (refund_refused s receipts d)) [
      | inl refused ↦ rw refused h
      | inr passed ↦ elim (Bool-cases (same s RefundStatus.required || moves_money s)) [
        | inr closes ↦
            rw (passed, closes)
              (finish-IsCovered dto gateway _
                (close-IsCovered current (kind_of dto) s d refl (ground arith) h))
        | inl writes ↦
            elim (Bool-cases (
              leb amount 0
              || (same s RefundStatus.completed && ltb (collected_vnd d - completed) amount))) [
                | inl wrong ↦ rw (passed, writes, wrong) h
                | inr fits ↦
                    rw (passed, writes, fits)
                      (finish-IsCovered dto gateway _ (
                        write-IsCovered current (kind_of dto) s amount now d refl
                          (remaining_fits amount completed (collected_vnd d)
                            (same s RefundStatus.completed) fits)
                          h))
              ]
      ]
    ]

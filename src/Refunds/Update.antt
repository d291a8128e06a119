-- ===== src/Refunds/Update.antt =====
-- `updateRefund` of src/modules/orders/orders.service.ts. The refunds of the gateway are read before
-- the transaction.
use fashion_ai_be.Prelude.{
  ℕ, ◌+◌, ◌-◌, ◌==◌, leb, ltb, Bool, true, false, not, ◌&&◌, ◌||◌, Option, none, some, List, [],
  ◌∷◌, any, count, same, includes, map, if◌then◌else◌,
}
use fashion_ai_be.Schema.OrderStatus.{OrderStatus, status_key_keyed}
use fashion_ai_be.Schema.PaymentStatus.{PaymentStatus, payment_key_keyed}
use fashion_ai_be.Schema.RefundStatus.{RefundStatus, refund_key_keyed}
use fashion_ai_be.Orders.Tx.{HttpError, Result, ok, err}
use fashion_ai_be.Refunds.Desk.{
  Desk, RefundKind, RefundOrderDto, OrderIssue, resolve_refund_payment_status,
  resolve_manual_refund_amount, moves_money, is_gateway_open, is_gateway_completed,
  is_manual_completed, is_manual_open, amount_of, collected_vnd, open_refund, approved_amount,
  write_refund, close_refund,
}

-- `kind ?? RefundKind.GOODS`
abbrev pub kind_of : RefundOrderDto → RefundKind
kind_of dto = elim dto.kind [ none ↦ RefundKind.goods | some kind ↦ kind ]

-- the statuses of a return on its way
abbrev pub return_in_transit : List OrderStatus
return_in_transit =
    OrderStatus.return_requested ∷ OrderStatus.return_approved ∷ OrderStatus.returning ∷ []

-- the tests before the transaction
abbrev pub refund_refused : RefundStatus → ℕ → Desk → Bool
refund_refused s receipts d =
    (includes return_in_transit d.status && same s RefundStatus.completed)
    || (moves_money s && any is_gateway_open d.refunds)
    || (moves_money s && leb (collected_vnd d) 0)
    || (same s RefundStatus.completed && receipts == 0)

-- the row of the refund; `none` is an answer 400, which undoes the transaction
unfoldable pub refund_row : RefundOrderDto → ℕ → ℕ → Desk → Option Desk
refund_row dto gateway now d =
    let current = open_refund (kind_of dto) d in
    let completed = amount_of is_manual_completed d.refunds + gateway in
    let amount =
      resolve_manual_refund_amount dto.amount_vnd (approved_amount current) (collected_vnd d)
        completed in
    if same dto.refund_status RefundStatus.required || moves_money dto.refund_status
    then (if leb amount 0
          || (same dto.refund_status RefundStatus.completed
              && ltb (collected_vnd d - completed) amount)
        then none
        else some (write_refund current (kind_of dto) dto.refund_status amount now d))
    else some (close_refund current dto.refund_status d)

abbrev pub ends_refund : RefundStatus → Bool
ends_refund s =
    same s RefundStatus.completed || same s RefundStatus.failed || same s RefundStatus.cancelled

-- `orderRefundStatus`
abbrev pub order_refund_status : RefundStatus → ℕ → ℕ → RefundStatus
order_refund_status s still_open refunded =
    if not (ends_refund s)
    then s
    else if ltb 0 still_open
    then RefundStatus.required
    else if same s RefundStatus.cancelled && ltb 0 refunded
    then RefundStatus.completed
    else s

abbrev pub resolve_issue : OrderIssue → OrderIssue
resolve_issue i =
    if i.is_approved_refund then record { is_approved_refund = false; is_resolved = true } else i

-- `paymentStatus`
abbrev pub refund_payment_status :
    RefundStatus → ℕ → ℕ → Option PaymentStatus → Option PaymentStatus
refund_payment_status s collected refunded old =
    if same s RefundStatus.processing
    then some PaymentStatus.refund_pending
    else if ends_refund s && ltb 0 collected
    then some (resolve_refund_payment_status collected refunded)
    else old

abbrev is_settled_payment : PaymentStatus → Bool
is_settled_payment s =
    includes
      (PaymentStatus.paid ∷ PaymentStatus.partially_refunded ∷ PaymentStatus.refunded
        ∷ PaymentStatus.refund_pending ∷ PaymentStatus.refund_required ∷ [])
      s

-- `payment.updateMany`
abbrev pub carry_status : Option PaymentStatus → ℕ → List PaymentStatus → List PaymentStatus
carry_status none collected ps = ps
carry_status (some s) collected ps =
    if ltb 0 collected then map (λ p. if is_settled_payment p then s else p) ps else ps

-- what follows the row of the refund
unfoldable pub refund_finish : RefundOrderDto → ℕ → Desk → Desk
refund_finish dto gateway d =
    let s = dto.refund_status in
    let refunded = amount_of is_manual_completed d.refunds + gateway in
    let still_open = count is_manual_open d.refunds in
    let payment_status = refund_payment_status s (collected_vnd d) refunded d.payment_status in
    record d {
      issues =
          if ends_refund s && still_open == 0 && not (same s RefundStatus.failed)
          then map resolve_issue d.issues
          else d.issues;
      refund_status = order_refund_status s still_open refunded;
      payment_status = payment_status;
      refund_confirmed_at = if same s RefundStatus.required then none else d.refund_confirmed_at;
      amount_refunded_vnd =
          if same s RefundStatus.completed || same s RefundStatus.failed
          then refunded
          else d.amount_refunded_vnd;
      payments = carry_status payment_status (collected_vnd d) d.payments;
    }

unfoldable pub refund_settle : Option Desk → RefundOrderDto → ℕ → Desk → Desk × Result Bool
refund_settle none dto gateway d = (d, err HttpError.bad_request)
refund_settle (some d') dto gateway d = (refund_finish dto gateway d', ok true)

-- `updateRefund`
unfoldable pub update_refund : RefundOrderDto → ℕ → ℕ → Desk → Desk × Result Bool
update_refund dto receipts now d =
    if refund_refused dto.refund_status receipts d
    then (d, err HttpError.bad_request)
    else let gateway = amount_of is_gateway_completed d.refunds in
      refund_settle (refund_row dto gateway now d) dto gateway d

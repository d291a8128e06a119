-- ===== src/Refunds/Reopen.antt =====
-- `reopenRefundNotReceived` of src/modules/orders/orders.service.ts: the customer has not received a
-- refund that was completed, and it is opened again.
use fashion_ai_be.Prelude.{
  ℕ, ◌==◌, leb, ltb, Bool, true, false, not, ◌&&◌, ◌||◌, Option, none, some, find_many, update_many,
  same, if◌then◌else◌,
}
use fashion_ai_be.Schema.RefundStatus.{RefundStatus, refund_key_keyed}
use fashion_ai_be.Orders.Tx.{HttpError, Result, ok, err}
use fashion_ai_be.Refunds.Desk.{
  Desk, Refund, RefundKind, resolve_refund_payment_status, is_manual_completed, amount_of,
  collected_vnd, first, requested_later,
}

abbrev pub is_completed : Refund → Bool
is_completed r = same r.status RefundStatus.completed

-- `processedAt: 'desc'` with nulls last, then `requestedAt: 'desc'`
abbrev later_processed : Refund → Refund → Option ℕ → Option ℕ → Bool
later_processed t r none none = requested_later t r
later_processed t r none (some _) = false
later_processed t r (some _) none = true
later_processed t r (some a) (some b) = ltb b a || (a == b && requested_later t r)

abbrev pub completed_later : Refund → Refund → Bool
completed_later t r = later_processed t r t.processed_at r.processed_at

-- `completedRefund`
unfoldable pub completed_refund : Desk → Option Refund
completed_refund d = first completed_later (find_many is_completed d.refunds)

abbrev pub failed_row : Refund → Refund
failed_row x = record x { status = RefundStatus.failed }

abbrev pub fail_refund : Refund → Desk → Desk
fail_refund r d = record d { refunds = update_many (λ x. x.id == r.id) failed_row d.refunds }

-- the transaction; the second argument is the state that an exception goes back to
unfoldable pub reopen_commit : Refund → Desk → Desk → Desk × Result (ℕ × RefundKind)
reopen_commit r d' d =
    let refunded = amount_of is_manual_completed d'.refunds in
    if leb (collected_vnd d') refunded then (d, err HttpError.bad_request) else (
      record d' {
        refund_status = RefundStatus.required;
        amount_refunded_vnd = refunded;
        payment_status = some (resolve_refund_payment_status (collected_vnd d') refunded);
      },
      ok (r.amount_vnd, r.kind),
    )

reopen_found : Option Refund → Desk → Desk × Result (ℕ × RefundKind)
unfolding reopen_commit
reopen_found none d = (d, err HttpError.bad_request)
reopen_found (some r) d =
    if not r.is_manual then (d, err HttpError.bad_request) else reopen_commit r (fail_refund r d) d

-- `reopenRefundNotReceived`; the order is the one that was found
unfoldable pub reopen_refund_not_received : Desk → Desk × Result (ℕ × RefundKind)
unfolding reopen_found
reopen_refund_not_received d = reopen_found (completed_refund d) d

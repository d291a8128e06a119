-- ===== src/Refunds/Desk.antt =====
-- Refunds by hand: `updateRefund` of src/modules/orders/orders.service.ts and
-- src/common/utils/refund.util.ts, on the rows that belong to one order. The notes, the messages, the
-- order event and the evidence are left out; `receipts` is the number of pictures in the evidence
-- after the call.
use fashion_ai_be.Prelude.{
  ℕ, ◌+◌, ◌-◌, ◌/◌, ◌==◌, min, leb, ltb, Bool, true, false, not, ◌&&◌, ◌||◌, Option, none, some,
  List, [], ◌∷◌, sum_by, find_many, update_many, same, includes, if◌then◌else◌,
}
use fashion_ai_be.Schema.OrderStatus.{OrderStatus, status_key_keyed}
use fashion_ai_be.Schema.PaymentStatus.{PaymentStatus, payment_key_keyed}
use fashion_ai_be.Schema.RefundStatus.{RefundStatus, refund_key_keyed}
use fashion_ai_be.Orders.Flow.{open_refund_statuses}

pub data RefundKind : Type 0 where
  goods shipping : RefundKind

abbrev pub same_kind : RefundKind → RefundKind → Bool
same_kind RefundKind.goods RefundKind.goods = true
same_kind RefundKind.shipping RefundKind.shipping = true
same_kind _ _ = false

-- `is_payment_only`: the scope PAYMENT_ONLY in the data of its payment
pub record Refund : Type 0 where
  pub id : ℕ
  pub is_manual : Bool
  pub is_payment_only : Bool
  pub kind : RefundKind
  pub status : RefundStatus
  pub amount_vnd : ℕ
  pub requested_at : ℕ
  pub processed_at : Option ℕ

-- An issue of the order; `is_approved_refund`: APPROVED, to be settled by a refund.
pub record OrderIssue : Type 0 where
  pub is_approved_refund : Bool
  pub is_resolved : Bool

-- The columns of an order that the code reads or writes, and the rows that belong to it.
pub record Desk : Type 0 where
  pub status : OrderStatus
  pub refund_status : RefundStatus
  pub payment_status : Option PaymentStatus
  pub amount : ℕ
  pub amount_paid_vnd : ℕ
  pub amount_refunded_vnd : ℕ
  pub refund_confirmed_at : Option ℕ
  pub refunds : List Refund
  pub issues : List OrderIssue
  pub payments : List PaymentStatus
  pub next_id : ℕ

pub record RefundOrderDto : Type 0 where
  pub refund_status : RefundStatus
  pub kind : Option RefundKind
  pub amount_vnd : Option ℕ

-- `resolveRefundPaymentStatus`
abbrev pub resolve_refund_payment_status : ℕ → ℕ → PaymentStatus
resolve_refund_payment_status collected refunded =
    if leb refunded 0
    then PaymentStatus.paid
    else if leb collected refunded
    then PaymentStatus.refunded
    else PaymentStatus.partially_refunded

-- the amount of `resolveManualRefundAmount`; `remainingVnd` is `collected - completed`
abbrev pub resolve_manual_refund_amount : Option ℕ → ℕ → ℕ → ℕ → ℕ
resolve_manual_refund_amount (some requested) approved collected completed = requested
resolve_manual_refund_amount none approved collected completed =
    if ltb 0 approved then min approved (collected - completed) else collected - completed

-- `movesMoney`
abbrev pub moves_money : RefundStatus → Bool
moves_money s = same s RefundStatus.completed || same s RefundStatus.processing

abbrev pub is_of_order : Refund → Bool
is_of_order r = not r.is_manual && not r.is_payment_only

-- a refund that the gateway has not confirmed
abbrev pub is_gateway_open : Refund → Bool
is_gateway_open r =
    is_of_order r && (same r.status RefundStatus.pending || same r.status RefundStatus.processing)

abbrev pub is_gateway_completed : Refund → Bool
is_gateway_completed r = is_of_order r && same r.status RefundStatus.completed

abbrev pub is_manual_completed : Refund → Bool
is_manual_completed r = r.is_manual && same r.status RefundStatus.completed

abbrev pub is_manual_open : Refund → Bool
is_manual_open r = r.is_manual && includes open_refund_statuses r.status

-- the sum of the amounts of the rows that meet a condition
abbrev pub amount_of : (Refund → Bool) → List Refund → ℕ
amount_of p rs = sum_by (λ (r : Refund). if p r then r.amount_vnd else 0) rs

-- `collectedVnd`
abbrev pub collected_vnd : Desk → ℕ
collected_vnd d = if ltb 0 d.amount_paid_vnd then d.amount_paid_vnd else (d.amount + 50) / 100

-- the first under an order; of two rows that neither precedes, the one that stands first
abbrev pub first_of : (Refund → Refund → Bool) → Refund → Option Refund → Refund
first_of precedes r none = r
first_of precedes r (some t) = if precedes t r then t else r

abbrev pub first : (Refund → Refund → Bool) → List Refund → Option Refund
first precedes [] = none
first precedes (r ∷ rs) = some (first_of precedes r (first precedes rs))

-- `requestedAt: 'desc'`
abbrev pub requested_later : Refund → Refund → Bool
requested_later t r = ltb r.requested_at t.requested_at

-- `openRefund`
unfoldable pub open_refund : RefundKind → Desk → Option Refund
open_refund kind d =
    first requested_later (find_many (λ r. is_manual_open r && same_kind r.kind kind) d.refunds)

abbrev pub approved_amount : Option Refund → ℕ
approved_amount none = 0
approved_amount (some r) = r.amount_vnd

-- `processedAt` is written where the refund is completed
abbrev pub processed_now : RefundStatus → ℕ → Option ℕ → Option ℕ
processed_now status now old = if same status RefundStatus.completed then some now else old

-- the row of the refund: a new one, or the open one with its new status and amount
unfoldable pub write_refund : Option Refund → RefundKind → RefundStatus → ℕ → ℕ → Desk → Desk
write_refund none kind status amount now d = record d {
  refunds =
      record {
        id = d.next_id;
        is_manual = true;
        is_payment_only = false;
        kind = kind;
        status = status;
        amount_vnd = amount;
        requested_at = now;
        processed_at = processed_now status now none;
      }
      ∷ d.refunds;
  next_id = d.next_id + 1;
}
write_refund (some r) kind status amount now d = record d {
  refunds =
      update_many (λ x. x.id == r.id)
        (λ x. record x {
          amount_vnd = amount;
          status = status;
          processed_at = processed_now status now x.processed_at;
        })
        d.refunds;
}

-- FAILED and CANCELLED: the open refund takes the status
unfoldable pub close_refund : Option Refund → RefundStatus → Desk → Desk
close_refund none status d = d
close_refund (some r) status d = record d {
  refunds = update_many (λ x. x.id == r.id) (λ x. record x { status = status }) d.refunds;
}

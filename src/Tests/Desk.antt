-- ===== src/Tests/Desk.antt =====
-- Refunds by hand.
use fashion_ai_be.Prelude.{◌+◌, ◌<◌, ◌≡◌, refl, true, false, none, some, [], ◌∷◌, arith}
use fashion_ai_be.Schema.OrderStatus.{OrderStatus}
use fashion_ai_be.Schema.PaymentStatus.{PaymentStatus}
use fashion_ai_be.Schema.RefundStatus.{RefundStatus}
use fashion_ai_be.Orders.Tx.{ok}
use fashion_ai_be.Refunds.Desk.{
  Desk, Refund, RefundKind, amount_of, is_manual_completed, is_gateway_completed, collected_vnd,
  open_refund,
}
use fashion_ai_be.Refunds.Update.{refund_row, refund_settle, update_refund}
use fashion_ai_be.Refunds.Books.{IsCovered, refunded_vnd}
use fashion_ai_be.Refunds.Reopen.{completed_refund, reopen_commit, reopen_refund_not_received}
use fashion_ai_be.Refunds.Reopened.{reopen_takes_back, reopen_forgets_gateway}
use fashion_ai_be.Refunds.Cover.{update_refund-IsCovered}
use fashion_ai_be.Refunds.Records.{completing, IsRecorded, update_refund-IsRecorded}

abbrev approved : Refund
approved = record {
  id = 1;
  is_manual = true;
  is_payment_only = false;
  kind = RefundKind.goods;
  status = RefundStatus.required;
  amount_vnd = 200000;
  requested_at = 3;
  processed_at = none;
}

abbrev by_gateway : Refund
by_gateway = record approved {
  id = 2;
  is_manual = false;
  status = RefundStatus.completed;
  amount_vnd = 100000;
}

abbrev desk : Desk
desk = record {
  status = OrderStatus.returned;
  refund_status = RefundStatus.required;
  payment_status = some PaymentStatus.paid;
  amount = 50000000;
  amount_paid_vnd = 500000;
  amount_refunded_vnd = 100000;
  refund_confirmed_at = none;
  refunds = approved ∷ by_gateway ∷ [];
  issues = [];
  payments = PaymentStatus.paid ∷ [];
  next_id = 3;
}

desk-IsCovered : IsCovered desk
desk-IsCovered = record { fresh = ground arith; unique = ground arith; covered = ground arith }

completes : (update_refund (completing none none) 1 9 desk).1 ≡ ok true
unfolding update_refund refund_row refund_settle open_refund
completes = refl

covered_example : IsCovered (update_refund (completing none none) 1 9 desk).0
covered_example = update_refund-IsCovered (completing none none) 1 9 desk desk-IsCovered

completion_example : IsRecorded (update_refund (completing none none) 1 9 desk).0
completion_example = update_refund-IsRecorded none none 1 9 desk desk-IsCovered.unique completes

abbrev refunded_desk : Desk
refunded_desk = record desk {
  refunds =
      record approved { status = RefundStatus.completed; processed_at = some 8 } ∷ by_gateway ∷ [];
}

refunded_desk-IsCovered : IsCovered refunded_desk
refunded_desk-IsCovered = record {
  fresh = ground arith;
  unique = ground arith;
  covered = ground arith;
}

reopens : (reopen_refund_not_received refunded_desk).1 ≡ ok (200000, RefundKind.goods)
unfolding reopen_refund_not_received reopen_commit completed_refund
reopens = refl

reopen_example :
    let d' = (reopen_refund_not_received refunded_desk).0 in
    (amount_of is_manual_completed d'.refunds + 200000
      ≡ amount_of is_manual_completed refunded_desk.refunds)
    × (amount_of is_gateway_completed d'.refunds
        ≡ amount_of is_gateway_completed refunded_desk.refunds)
    × (amount_of is_manual_completed d'.refunds < collected_vnd refunded_desk)
    × (d'.refund_status ≡ RefundStatus.required)
    × IsCovered d'
reopen_example =
    reopen_takes_back refunded_desk 200000 RefundKind.goods refunded_desk-IsCovered reopens

shortfall_example :
    let d' = (reopen_refund_not_received refunded_desk).0 in
    d'.amount_refunded_vnd + amount_of is_gateway_completed d'.refunds ≡ refunded_vnd d'
shortfall_example = reopen_forgets_gateway refunded_desk (200000, RefundKind.goods) reopens

-- ===== src/Schema/OrderStatus.antt =====
-- `enum OrderStatus` of prisma/schema.prisma.
use fashion_ai_be.Prelude.{ℕ, zero, suc, ◌≡◌, refl, sym, ap, ◌∙◌, Keyed}

pub data OrderStatus : Type 0 where
  created pending_payment pending paid confirmed measurement_review measurement_confirmed :
      OrderStatus
  tailoring quality_check processing ready_to_ship shipping delivered delivery_disputed :
      OrderStatus
  completed cancelled return_requested return_approved returning returned : OrderStatus
  expired failed : OrderStatus

abbrev pub status_key : OrderStatus → ℕ
status_key OrderStatus.created = 0
status_key OrderStatus.pending_payment = 1
status_key OrderStatus.pending = 2
status_key OrderStatus.paid = 3
status_key OrderStatus.confirmed = 4
status_key OrderStatus.measurement_review = 5
status_key OrderStatus.measurement_confirmed = 6
status_key OrderStatus.tailoring = 7
status_key OrderStatus.quality_check = 8
status_key OrderStatus.processing = 9
status_key OrderStatus.ready_to_ship = 10
status_key OrderStatus.shipping = 11
status_key OrderStatus.delivered = 12
status_key OrderStatus.delivery_disputed = 13
status_key OrderStatus.completed = 14
status_key OrderStatus.cancelled = 15
status_key OrderStatus.return_requested = 16
status_key OrderStatus.return_approved = 17
status_key OrderStatus.returning = 18
status_key OrderStatus.returned = 19
status_key OrderStatus.expired = 20
status_key OrderStatus.failed = 21

abbrev of_status_key : ℕ → OrderStatus
of_status_key zero = OrderStatus.created
of_status_key (suc zero) = OrderStatus.pending_payment
of_status_key (suc (suc zero)) = OrderStatus.pending
of_status_key (suc (suc (suc zero))) = OrderStatus.paid
of_status_key (suc (suc (suc (suc zero)))) = OrderStatus.confirmed
of_status_key (suc (suc (suc (suc (suc zero))))) = OrderStatus.measurement_review
of_status_key (suc (suc (suc (suc (suc (suc zero)))))) = OrderStatus.measurement_confirmed
of_status_key (suc (suc (suc (suc (suc (suc (suc zero))))))) = OrderStatus.tailoring
of_status_key (suc (suc (suc (suc (suc (suc (suc (suc zero)))))))) = OrderStatus.quality_check
of_status_key (suc (suc (suc (suc (suc (suc (suc (suc (suc zero))))))))) = OrderStatus.processing
of_status_key (suc (suc (suc (suc (suc (suc (suc (suc (suc (suc zero)))))))))) =
    OrderStatus.ready_to_ship
of_status_key (suc (suc (suc (suc (suc (suc (suc (suc (suc (suc (suc zero))))))))))) =
    OrderStatus.shipping
of_status_key (suc (suc (suc (suc (suc (suc (suc (suc (suc (suc (suc (suc zero)))))))))))) =
    OrderStatus.delivered
of_status_key (suc (suc (suc (suc (suc (suc (suc (suc (suc (suc (suc (suc (suc zero))))))))))))) =
    OrderStatus.delivery_disputed
of_status_key
      (suc (suc (suc (suc (suc (suc (suc (suc (suc (suc (suc (suc (suc (suc zero)))))))))))))) =
    OrderStatus.completed
of_status_key
      (suc
        (suc (suc (suc (suc (suc (suc (suc (suc (suc (suc (suc (suc (suc (suc zero))))))))))))))) =
    OrderStatus.cancelled
of_status_key
      (suc (
        suc (
          suc
            (suc (suc (suc (suc (suc (suc (suc (suc (suc (suc (suc (suc (suc zero)))))))))))))))) =
    OrderStatus.return_requested
of_status_key
      (suc (
        suc (
          suc (
            suc (
              suc
                (suc (suc (suc (suc (suc (suc (suc (suc (suc (suc (suc (suc zero))))))))))))))))) =
    OrderStatus.return_approved
of_status_key
      (suc (
        suc (
          suc (
            suc (
              suc (
                suc (
                  suc
                    (suc (suc (suc (suc (suc (suc (suc (suc (suc (suc (suc zero)))))))))))))))))) =
    OrderStatus.returning
of_status_key
      (suc (
        suc (
          suc (
            suc (
              suc (
                suc (
                  suc (
                    suc (
                      suc
                        (suc (suc (suc (suc (suc (suc (suc (suc (suc (suc zero))))))))))))))))))) =
    OrderStatus.returned
of_status_key
      (suc (
        suc (
          suc (
            suc (
              suc (
                suc (
                  suc (
                    suc (
                      suc (
                        suc (
                          suc
                            (suc (suc (suc (suc (suc (suc (suc (suc (suc zero)))))))))))))))))))) =
    OrderStatus.expired
of_status_key _ = OrderStatus.failed

of_status_key-status_key : (s : OrderStatus) → of_status_key (status_key s) ≡ s
of_status_key-status_key OrderStatus.created = refl
of_status_key-status_key _ = refl

pub status_key-injective : (s t : OrderStatus) → status_key s ≡ status_key t → s ≡ t
status_key-injective s t h =
    sym (of_status_key-status_key s) ∙ ap of_status_key h ∙ of_status_key-status_key t

instance abbrev pub status_key_keyed : Keyed OrderStatus
status_key_keyed = record { key = status_key; key-injective = status_key-injective }

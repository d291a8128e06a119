-- ===== src/Schema/PaymentStatus.antt =====
-- `enum PaymentStatus` of prisma/schema.prisma.
use fashion_ai_be.Prelude.{ℕ, zero, suc, ◌≡◌, refl, sym, ap, ◌∙◌, Keyed}

pub data PaymentStatus : Type 0 where
  pending paid failed expired refund_required refund_pending refunded partially_refunded :
      PaymentStatus
  cod_collected : PaymentStatus

abbrev pub payment_key : PaymentStatus → ℕ
payment_key PaymentStatus.pending = 0
payment_key PaymentStatus.paid = 1
payment_key PaymentStatus.failed = 2
payment_key PaymentStatus.expired = 3
payment_key PaymentStatus.refund_required = 4
payment_key PaymentStatus.refund_pending = 5
payment_key PaymentStatus.refunded = 6
payment_key PaymentStatus.partially_refunded = 7
payment_key PaymentStatus.cod_collected = 8

abbrev of_payment_key : ℕ → PaymentStatus
of_payment_key zero = PaymentStatus.pending
of_payment_key (suc zero) = PaymentStatus.paid
of_payment_key (suc (suc zero)) = PaymentStatus.failed
of_payment_key (suc (suc (suc zero))) = PaymentStatus.expired
of_payment_key (suc (suc (suc (suc zero)))) = PaymentStatus.refund_required
of_payment_key (suc (suc (suc (suc (suc zero))))) = PaymentStatus.refund_pending
of_payment_key (suc (suc (suc (suc (suc (suc zero)))))) = PaymentStatus.refunded
of_payment_key (suc (suc (suc (suc (suc (suc (suc zero))))))) = PaymentStatus.partially_refunded
of_payment_key _ = PaymentStatus.cod_collected

of_payment_key-payment_key : (s : PaymentStatus) → of_payment_key (payment_key s) ≡ s
of_payment_key-payment_key PaymentStatus.pending = refl
of_payment_key-payment_key _ = refl

pub payment_key-injective : (s t : PaymentStatus) → payment_key s ≡ payment_key t → s ≡ t
payment_key-injective s t h =
    sym (of_payment_key-payment_key s) ∙ ap of_payment_key h ∙ of_payment_key-payment_key t

instance abbrev pub payment_key_keyed : Keyed PaymentStatus
payment_key_keyed = record { key = payment_key; key-injective = payment_key-injective }

-- ===== src/Schema/RefundStatus.antt =====
-- `enum RefundStatus` of prisma/schema.prisma.
use fashion_ai_be.Prelude.{ℕ, zero, suc, ◌≡◌, refl, sym, ap, ◌∙◌, Keyed}

pub data RefundStatus : Type 0 where
  none pending required processing completed failed cancelled : RefundStatus

abbrev pub refund_key : RefundStatus → ℕ
refund_key RefundStatus.none = 0
refund_key RefundStatus.pending = 1
refund_key RefundStatus.required = 2
refund_key RefundStatus.processing = 3
refund_key RefundStatus.completed = 4
refund_key RefundStatus.failed = 5
refund_key RefundStatus.cancelled = 6

abbrev of_refund_key : ℕ → RefundStatus
of_refund_key zero = RefundStatus.none
of_refund_key (suc zero) = RefundStatus.pending
of_refund_key (suc (suc zero)) = RefundStatus.required
of_refund_key (suc (suc (suc zero))) = RefundStatus.processing
of_refund_key (suc (suc (suc (suc zero)))) = RefundStatus.completed
of_refund_key (suc (suc (suc (suc (suc zero))))) = RefundStatus.failed
of_refund_key _ = RefundStatus.cancelled

of_refund_key-refund_key : (s : RefundStatus) → of_refund_key (refund_key s) ≡ s
of_refund_key-refund_key RefundStatus.none = refl
of_refund_key-refund_key _ = refl

pub refund_key-injective : (s t : RefundStatus) → refund_key s ≡ refund_key t → s ≡ t
refund_key-injective s t h =
    sym (of_refund_key-refund_key s) ∙ ap of_refund_key h ∙ of_refund_key-refund_key t

instance abbrev pub refund_key_keyed : Keyed RefundStatus
refund_key_keyed = record { key = refund_key; key-injective = refund_key-injective }

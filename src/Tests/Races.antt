-- ===== src/Tests/Races.antt =====
-- Several transactions on one order.
use fashion_ai_be.Prelude.{ℕ, ◌==◌, ◌≡◌, refl, none, some, Option, arith, find}
use mathlib.Core.Option
use fashion_ai_be.Schema.RefundStatus.{RefundStatus}
use fashion_ai_be.Schema.OrderStatus.{OrderStatus}
use fashion_ai_be.Schema.PaymentStatus.{PaymentStatus}
use fashion_ai_be.Schema.Shop.{Db, Order, Payment, Provider}
use fashion_ai_be.Orders.Winner.{order_at}
use fashion_ai_be.Coupons.Redemptions.{release_order_coupon_redemption}
use fashion_ai_be.Orders.Cancel.{cancel_attempt, cancel_finish, cancel_commit, expire_commit}
use fashion_ai_be.Orders.Invariant.{IsShop, order_id_of}
use fashion_ai_be.Orders.Tx.{HttpError, err, create_keyed_event, expire_placeholders}
use fashion_ai_be.Payments.Claim.{
  processed, settle, finish_claim, record_payment, record_event, claim_commit, already_processed,
  PaidAmount, process_order_success,
}
use fashion_ai_be.Payments.Void.{void_commit, void_finish, void_payment}
use fashion_ai_be.Payments.Race.{cancel_excludes_payment}
use fashion_ai_be.Payments.LateVoid.{late_void_breaks_IsShop}
use fashion_ai_be.Tests.Data.{shop, shop-IsShop, unpaid_order}

abbrev paid_shop : Db
paid_shop = (claim_commit unpaid_order none Provider.sepay 77 9 shop).0

payment_goes_through : (claim_commit unpaid_order none Provider.sepay 77 9 shop).1 ≡ processed
unfolding claim_commit settle finish_claim record_payment
payment_goes_through = refl

cancellation_goes_through : (cancel_commit 7 1 shop).1 ≡ 1
unfolding cancel_commit cancel_attempt cancel_finish create_keyed_event expire_placeholders
cancellation_goes_through = refl

expiry_goes_through : (expire_commit 1 shop).1 ≡ 1
unfolding expire_commit
expiry_goes_through = refl

abbrev cancelled_shop : Db
cancelled_shop = (cancel_commit 7 1 shop).0

cancelled_by_code :
    Option.map order_id_of (find (λ x. x.order_code == 100) cancelled_shop.orders) ≡ some 1
unfolding cancel_commit cancel_attempt cancel_finish create_keyed_event expire_placeholders
    release_order_coupon_redemption
cancelled_by_code = refl

cancelled_example :
    ((expire_commit 1 cancelled_shop).1 ≡ 0)
    × ((existing : Option Payment) (provider : Provider) (reference now : ℕ)
        → claim_commit unpaid_order existing provider reference now cancelled_shop
          ≡ (cancelled_shop, already_processed))
    × ((paid : PaidAmount) (existing : Option Payment) (provider : Provider) (reference now : ℕ)
        → process_order_success 100 paid existing provider reference now cancelled_shop
          ≡ (cancelled_shop, err HttpError.bad_request))
cancelled_example =
    cancel_excludes_payment 7 100 unpaid_order shop shop-IsShop
      (λ e. ground (arith, cancellation_goes_through, e)) cancelled_by_code

abbrev expired_shop : Db
expired_shop = (expire_commit 1 shop).0

abbrev or_shop : Option Db → Db
or_shop none = shop
or_shop (some db) = db

abbrev voided_shop : Db
voided_shop = or_shop (void_commit 1 Provider.sepay 78 10 paid_shop)

void_goes_through :
    void_commit 1 Provider.sepay 78 10 (claim_commit unpaid_order none Provider.sepay 77 9 shop).0
    ≡ some voided_shop
unfolding claim_commit settle finish_claim record_payment void_commit void_finish void_payment
    record_event
void_goes_through = refl

no_refund : (o : Order) → some unpaid_order ≡ some o → o.refund_status ≡ RefundStatus.none
no_refund o e = ground (arith, e)

late_void_example :
    ((o' : Order) × (order_at 1 voided_shop ≡ some o')
      × (o'.status ≡ OrderStatus.cancelled)
      × (o'.payment_status ≡ some PaymentStatus.paid)
      × (o'.refund_status ≡ RefundStatus.none))
    × ¬ IsShop voided_shop
late_void_example =
    late_void_breaks_IsShop unpaid_order none Provider.sepay 77 9 shop Provider.sepay 78 10
      voided_shop shop-IsShop no_refund payment_goes_through void_goes_through

-- ===== src/Tests/Orders.antt =====
-- Orders from one operation to the next.
use fashion_ai_be.Prelude.{◌≡◌, refl, true, false, none, some, All, arith}
use fashion_ai_be.Schema.OrderStatus.{OrderStatus, status_key_keyed}
use fashion_ai_be.Schema.Shop.{Provider}
use fashion_ai_be.Coupons.Redemptions.{claim_coupon}
use fashion_ai_be.Coupons.Accounting.{IsAccounted}
use fashion_ai_be.Coupons.Claims.{after_claim, claim-IsAccounted}
use fashion_ai_be.Orders.Flow.{ShipmentStatus, may_change, order_status_for_shipment}
use fashion_ai_be.Orders.Tx.{Identifier}
use fashion_ai_be.Orders.Cancel.{expire_unpaid_orders, expiry_candidates, is_overdue}
use fashion_ai_be.Orders.Invariant.{IsShop}
use fashion_ai_be.Orders.Expiry.{has_expiry, expire_unpaid_orders_complete}
use fashion_ai_be.Payments.Claim.{PaidAmount}
use fashion_ai_be.Lifecycle.History.{Call, Reaches, start, next, run, Reaches-IsShop}
use fashion_ai_be.Lifecycle.Phases.{AllKeepPhase, Reaches-AllKeepPhase}
use fashion_ai_be.Tests.Data.{shop, shop-IsShop, shop-IsAccounted}

abbrev paying : Call
paying = Call.paying 100 (PaidAmount.reported 50000000) none Provider.sepay 77 9

abbrev reviewing : Call
reviewing = Call.changing_status (Identifier.uuid 1) OrderStatus.cancelled none

abbrev path : Reaches shop (run reviewing (run paying shop))
path = next (next start paying) reviewing

Reaches-IsShop_example : IsShop (run reviewing (run paying shop))
Reaches-IsShop_example = Reaches-IsShop shop-IsShop path

phases_example : AllKeepPhase shop.orders (run reviewing (run paying shop)).orders
phases_example = Reaches-AllKeepPhase shop-IsShop path

batch_not_full : (expire_unpaid_orders 999999999 shop).2 ≡ false
unfolding expire_unpaid_orders expiry_candidates
batch_not_full = refl

none_recorded : All (λ o. is_overdue 999999999 o ≡ true → has_expiry shop o ≡ false) shop.orders
none_recorded = ground arith

complete_example :
    All (λ o. is_overdue 999999999 o ≡ false) (expire_unpaid_orders 999999999 shop).0.orders
complete_example = expire_unpaid_orders_complete 999999999 shop none_recorded batch_not_full

claim_example : IsAccounted (after_claim (claim_coupon 11 8 3 10 shop) shop)
claim_example = claim-IsAccounted 11 8 3 10 shop shop-IsAccounted

admitted : may_change true OrderStatus.measurement_review OrderStatus.measurement_confirmed ≡ true
unfolding may_change
admitted = refl

followed :
    order_status_for_shipment OrderStatus.shipping ShipmentStatus.delivered
    ≡ some OrderStatus.delivered
unfolding order_status_for_shipment
followed = refl

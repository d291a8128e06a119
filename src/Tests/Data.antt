-- ===== src/Tests/Data.antt =====
-- A shop with an unpaid order that holds a use of a coupon, and one that was paid for and cancelled.
use fashion_ai_be.Prelude.{refl, true, none, some, [], ◌∷◌, arith}
use fashion_ai_be.Schema.OrderStatus.{OrderStatus}
use fashion_ai_be.Schema.PaymentStatus.{PaymentStatus}
use fashion_ai_be.Schema.RefundStatus.{RefundStatus}
use fashion_ai_be.Schema.Members.{Members}
use fashion_ai_be.Schema.Shop.{
  Db, Order, Coupon, CouponRedemption, DiscountType, Shipment, DeliveryDispute,
}
use fashion_ai_be.Coupons.Accounting.{IsAccounted}
use fashion_ai_be.Orders.Invariant.{IsShop}

abbrev pub unpaid_order : Order
unpaid_order = record {
  id = 1;
  user_id = 7;
  order_code = 100;
  target_tier = none;
  amount = 50000000;
  amount_paid_vnd = 0;
  amount_refunded_vnd = 0;
  refund_confirmed_at = none;
  status = OrderStatus.created;
  checkout_url = none;
  checkout_expires_at = none;
  fulfillment_flow_version = some 1;
  payment_status = some PaymentStatus.pending;
  refund_status = RefundStatus.none;
  created_at = 5;
}

abbrev pub owed_order : Order
owed_order = record unpaid_order {
  id = 2;
  order_code = 200;
  status = OrderStatus.cancelled;
  payment_status = some PaymentStatus.paid;
  refund_status = RefundStatus.completed;
}

abbrev pub delivered_order : Order
delivered_order = record unpaid_order {
  id = 3;
  order_code = 300;
  status = OrderStatus.delivered;
  payment_status = some PaymentStatus.paid;
}

abbrev pub disputed_order : Order
disputed_order = record unpaid_order {
  id = 4;
  order_code = 400;
  status = OrderStatus.delivery_disputed;
  payment_status = some PaymentStatus.paid;
}

abbrev pub coupon : Coupon
coupon = record {
  id = 11;
  code = 1;
  discount_type = DiscountType.percentage;
  discount_value = 1000;
  max_discount_vnd = none;
  min_order_vnd = none;
  usage_limit = some 2;
  usage_limit_per_user = some 2;
  used_count = 1;
  is_active = true;
  starts_at = none;
  expires_at = none;
}

abbrev pub redemption : CouponRedemption
redemption = record { id = 20; coupon_id = 11; user_id = 7; order_id = 1 }

abbrev pub shipment : Shipment
shipment = record {
  id = 30;
  order_id = 3;
  raw_delivered = true;
  provider_event_at = some 1000;
  last_synced_at = none;
  updated_at = 0;
  created_at = 0;
}

abbrev pub dispute : DeliveryDispute
dispute = record { id = 40; order_id = 4; is_open = true; resolution = none; created_at = 0 }

abbrev pub members : Members
members = record { users = []; subscriptions = []; next_id = 1 }

abbrev pub shop : Db
shop = record {
  orders = unpaid_order ∷ owed_order ∷ delivered_order ∷ disputed_order ∷ [];
  payments = [];
  items = [];
  disputes = dispute ∷ [];
  shipments = shipment ∷ [];
  events = [];
  coupons = coupon ∷ [];
  redemptions = redemption ∷ [];
  members = members;
  next_id = 50;
}

pub shop-IsAccounted : IsAccounted shop
shop-IsAccounted = record {
  fresh = ground arith;
  unique = ground arith;
  coupon_unique = ground arith;
  balanced = (refl, tt);
  within = ((λ l e. ground arith), tt);
}

pub shop-IsShop : IsShop shop
shop-IsShop = record {
  orders_unique = (refl, (refl, (refl, (refl, tt))));
  owed = ground arith;
  accounted = shop-IsAccounted;
}

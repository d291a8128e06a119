-- ===== src/Orders/Pricing.antt =====
-- The price of a new order: `getActiveOrderProducts`, `buildOrderPricing`, `calculateOrderShippingFee`
-- and `resolveDiscountAmount` of src/modules/orders/orders.service.ts, and the order lines that
-- `create` stores. Amounts are in hundredths of a VND. `carrier` is what `calculateFee` answers for a
-- weight in grams and an insured amount; `normalize` is `trim().toUpperCase()` of a coupon code, 0 the
-- empty one.
use fashion_ai_be.Prelude.{
  ℕ, ◌+◌, ◌-◌, ◌*◌, ◌/◌, ◌==◌, min, max, ltb, Bool, true, false, not, ◌&&◌, Option, none, some,
  List, [], ◌∷◌, any, find, count, sum_by, if◌then◌else◌,
}
use fashion_ai_be.Schema.Shop.{Db, Coupon, CouponRedemption, DiscountType}
use fashion_ai_be.Coupons.Redemptions.{opt_leb, leb_opt, ltb_opt}
use fashion_ai_be.Sales.Pricing.{
  PricedProduct, CampaignItem, SaleCandidate, resolve_sale_for_products,
}
use fashion_ai_be.Orders.Tx.{HttpError, Result, ok, err}

-- `CreateOrderItemDto`, without what the price does not depend on
pub record CreateOrderItem : Type 0 where
  pub product_id : ℕ
  pub quantity : ℕ
  pub color : Option ℕ

pub record OrderItemPricing : Type 0 where
  pub product_id : ℕ  -- the key in `itemPricing`
  pub list_unit_price : ℕ
  pub unit_price : ℕ
  pub line_total : ℕ
  pub has_sale : Bool

-- the variables of the loop over the items; a later entry of `item_pricing` stands before an earlier
pub record Totals : Type 0 where
  pub items_total : ℕ
  pub list_items_total : ℕ
  pub item_pricing : List OrderItemPricing

pub record OrderPricing : Type 0 where
  pub items_total : ℕ
  pub list_items_total : ℕ
  pub shipping_fee : ℕ
  pub discount_amount : ℕ
  pub coupon_id : Option ℕ
  pub total : ℕ
  pub item_pricing : List OrderItemPricing

abbrev pub is_product : ℕ → PricedProduct → Bool
is_product id p = p.id == id

-- `getActiveOrderProducts`; `products` are the active ones
unfoldable pub all_active : List PricedProduct → List CreateOrderItem → Bool
all_active products [] = true
all_active products (i ∷ is) = any (is_product i.product_id) products && all_active products is

abbrev list_price_of : Option PricedProduct → ℕ
list_price_of none = 0
list_price_of (some p) = p.price

-- `sale?.salePrice ?? listUnitPriceVnd`
abbrev pub sale_or_list : Option SaleCandidate → ℕ → ℕ
sale_or_list none list_price = list_price
sale_or_list (some sale) list_price = sale.sale_price * 100

abbrev is_some {ℓ} : {A : Type ℓ} → Option A → Bool
is_some none = false
is_some (some _) = true

module _ (products : List PricedProduct) (rows : List CampaignItem) (at : ℕ) where
  abbrev pub list_unit_price : ℕ → ℕ
  list_unit_price id = list_price_of (find (is_product id) products)

  unfoldable pub unit_price : ℕ → ℕ
  unit_price id = sale_or_list (resolve_sale_for_products products rows at id) (list_unit_price id)

  unfoldable pub has_sale : ℕ → Bool
  has_sale id = is_some (resolve_sale_for_products products rows at id)

  -- one round of the loop
  abbrev pub price_item : CreateOrderItem → Totals → Totals
  price_item item t = record {
    items_total = t.items_total + unit_price item.product_id * item.quantity;
    list_items_total = t.list_items_total + list_unit_price item.product_id * item.quantity;
    item_pricing =
        record {
          product_id = item.product_id;
          list_unit_price = list_unit_price item.product_id;
          unit_price = unit_price item.product_id;
          line_total = unit_price item.product_id * item.quantity;
          has_sale = has_sale item.product_id;
        }
        ∷ t.item_pricing;
  }

  unfoldable pub price_items : List CreateOrderItem → Totals → Totals
  price_items [] t = t
  price_items (i ∷ is) t = price_items is (price_item i t)

-- `calculateOrderShippingFee`: half a kilogram for each piece
abbrev pub order_weight : List CreateOrderItem → ℕ
order_weight items = max 500 (sum_by (λ (i : CreateOrderItem). i.quantity * 500) items)

pub record Discount : Type 0 where
  pub amount : ℕ
  pub coupon_id : Option ℕ

abbrev capped : ℕ → Option ℕ → ℕ
capped amount none = amount
capped amount (some most) = min amount (most * 100)

-- the amount that a coupon takes off
unfoldable pub discount_of : Coupon → ℕ → ℕ
discount_of c items_total = elim c.discount_type [
  | DiscountType.percentage ↦
      capped ((items_total * c.discount_value + 500000) / 1000000 * 100) c.max_discount_vnd
  | DiscountType.fixed_amount ↦ min c.discount_value items_total
]

abbrev below_minimum : Option ℕ → ℕ → Bool
below_minimum none items_total = false
below_minimum (some least) items_total = ltb items_total (least * 100)

unfoldable pub discount_found : Option Coupon → ℕ → ℕ → ℕ → Db → Result Discount
discount_found none items_total user_id at db = err HttpError.bad_request
discount_found (some c) items_total user_id at db =
    if not c.is_active
    then err HttpError.bad_request
    else if not (opt_leb c.starts_at at)
    then err HttpError.bad_request
    else if not (leb_opt at c.expires_at)
    then err HttpError.bad_request
    else if below_minimum c.min_order_vnd items_total
    then err HttpError.bad_request
    else if not (ltb_opt c.used_count c.usage_limit)
    then err HttpError.bad_request
    else if not (
        ltb_opt
          (count (λ (r : CouponRedemption). r.coupon_id == c.id && r.user_id == user_id)
            db.redemptions)
          c.usage_limit_per_user)
    then err HttpError.bad_request
    else ok (record { amount = discount_of c items_total; coupon_id = some c.id })

abbrev pub code_of : (ℕ → ℕ) → Option ℕ → ℕ
code_of normalize none = 0
code_of normalize (some code) = normalize code

-- `resolveDiscountAmount`
unfoldable pub resolve_discount_amount : (ℕ → ℕ) → Option ℕ → ℕ → ℕ → ℕ → Db → Result Discount
unfolding discount_found
resolve_discount_amount normalize coupon_code items_total user_id at db =
    let code = code_of normalize coupon_code in
    if code == 0
    then ok (record { amount = 0; coupon_id = none })
    else discount_found (find (λ (c : Coupon). c.code == code) db.coupons) items_total user_id at db

abbrev pub pricing_of : Totals → ℕ → Discount → OrderPricing
pricing_of t shipping_fee d = record {
  items_total = t.items_total;
  list_items_total = t.list_items_total;
  shipping_fee = shipping_fee;
  discount_amount = d.amount;
  coupon_id = d.coupon_id;
  total = t.items_total + shipping_fee - d.amount;
  item_pricing = t.item_pricing;
}

unfoldable pub with_discount : Totals → ℕ → Result Discount → Result OrderPricing
with_discount t shipping_fee (err e) = err e
with_discount t shipping_fee (ok d) =
    if ltb (t.items_total + shipping_fee) d.amount
    then err HttpError.bad_request
    else if t.items_total + shipping_fee - d.amount == 0
    then err HttpError.bad_request
    else ok (pricing_of t shipping_fee d)

unfoldable pub with_fee : Totals → (ℕ → Result Discount) → Result ℕ → Result OrderPricing
with_fee t discount (err e) = err e
with_fee t discount (ok fee) = with_discount t (fee * 100) (discount t.items_total)

-- what the caller sends, besides the items
pub record PricingRequest : Type 0 where
  pub user_id : ℕ
  pub coupon_code : Option ℕ
  pub at : ℕ

abbrev pub no_totals : Totals
no_totals = record { items_total = 0; list_items_total = 0; item_pricing = [] }

-- `buildOrderPricing`, after the products were read
unfoldable pub build_order_pricing :
    (ℕ → ℕ → Result ℕ)
    → (ℕ → ℕ)
    → List PricedProduct
    → List CampaignItem
    → PricingRequest
    → List CreateOrderItem
    → Db
    → Result OrderPricing
build_order_pricing carrier normalize products rows request items db =
    if not (all_active products items)
    then err HttpError.bad_request
    else let t = price_items products rows request.at items no_totals in
      with_fee t
        (λ items_total.
          resolve_discount_amount normalize request.coupon_code items_total request.user_id
            request.at db)
        (carrier (order_weight items) t.items_total)

-- an `OrderItem` that `create` stores
pub record OrderLine : Type 0 where
  pub product_id : ℕ
  pub quantity : ℕ
  pub price : ℕ
  pub line_total_vnd : ℕ

-- `toVnd`
abbrev pub to_vnd : ℕ → ℕ
to_vnd amount = (amount + 50) / 100

abbrev pub line_of : Option OrderItemPricing → CreateOrderItem → OrderLine
line_of none item = record {
  product_id = item.product_id;
  quantity = item.quantity;
  price = 0;
  line_total_vnd = 0;
}
line_of (some p) item = record {
  product_id = item.product_id;
  quantity = item.quantity;
  price = p.unit_price;
  line_total_vnd = to_vnd p.line_total;
}

abbrev pub pricing_for : ℕ → List OrderItemPricing → Option OrderItemPricing
pricing_for id ps = find (λ (p : OrderItemPricing). p.product_id == id) ps

-- `items: { create: resolvedDto.items.map(...) }`
unfoldable pub order_lines : List CreateOrderItem → List OrderItemPricing → List OrderLine
order_lines [] ps = []
order_lines (i ∷ is) ps = line_of (pricing_for i.product_id ps) i ∷ order_lines is ps

-- ===== src/Tests/Checkout.antt =====
-- The price of an order, its coupon and its code, and what may be tried on together.
use fashion_ai_be.Prelude.{
  ℕ, ◌+◌, ◌*◌, ◌%◌, ◌<◌, ◌≡◌, refl, ◌↔◌, true, false, none, some, [], ◌∷◌, map, All, sum_by, arith,
}
use fashion_ai_be.Schema.Shop.{Db}
use fashion_ai_be.Sales.Pricing.{PricedProduct, resolve_sale_for_products, best_from}
use fashion_ai_be.Coupons.Redemptions.{claimed, claim_coupon, redemption_of}
use fashion_ai_be.Orders.Tx.{Result, ok}
use fashion_ai_be.Orders.Pricing.{
  CreateOrderItem, Discount, discount_found, discount_of, with_fee, with_discount, has_sale,
  all_active, OrderPricing, OrderLine, PricingRequest, build_order_pricing, order_lines,
  resolve_discount_amount, price_items, no_totals, to_vnd, unit_price,
}
use fashion_ai_be.Orders.Totals.{
  item_total, own_line, pricing_total, order_lines-own, same_product_lines,
}
use fashion_ai_be.Orders.Redeemable.{accepted_coupon_claimed}
use fashion_ai_be.Orders.OrderCode.{
  Draw, generate_order_code, insert_code, create_with_unique_order_code, first_free,
  creates_first_free, order_code_digits,
}
use fashion_ai_be.Tailoring.Measurements.{
  Measurement, Garment, GarmentCategory, get_missing_measurements, is_numeric_measurement_value,
  value_of, resolve_item_required_fields,
}
use fashion_ai_be.Tailoring.Complete.{nothing_missing_iff}
use fashion_ai_be.Tailoring.Layers.{LayerRole, layer_combination_error}
use fashion_ai_be.Tailoring.Outfits.{IsOutfit, accepted_iff_IsOutfit}
use fashion_ai_be.Tests.Data.{shop}

abbrev tie : PricedProduct
tie = record { id = 5; price = 10000000 }

abbrev line : CreateOrderItem
line = record { product_id = 5; quantity = 3; color = none }

abbrev carrier : ℕ → ℕ → Result ℕ
carrier grams insured = ok 30000

abbrev priced : OrderPricing
priced = record {
  items_total = 30000000;
  list_items_total = 30000000;
  shipping_fee = 3000000;
  discount_amount = 3000000;
  coupon_id = some 11;
  total = 30000000;
  item_pricing =
      record {
        product_id = 5;
        list_unit_price = 10000000;
        unit_price = 10000000;
        line_total = 30000000;
        has_sale = false;
      }
      ∷ [];
}

abbrev basket_request : PricingRequest
basket_request = record { user_id = 8; coupon_code = some 1; at = 100 }

quote_whole :
    build_order_pricing carrier (λ c. c) (tie ∷ []) [] basket_request (line ∷ []) shop ≡ ok priced
unfolding build_order_pricing price_items resolve_discount_amount discount_found with_fee
    with_discount unit_price has_sale resolve_sale_for_products all_active discount_of best_from
quote_whole = refl

total_example :
    (priced.total + priced.discount_amount
      ≡ sum_by (item_total (tie ∷ []) [] 100) (line ∷ []) + priced.shipping_fee)
    × (0 < priced.total)
total_example =
    pricing_total (tie ∷ []) [] 100 carrier (λ c. c) 8 (some 1) (line ∷ []) shop {p = priced}
      quote_whole

lines_example :
    order_lines (line ∷ []) priced.item_pricing ≡ map (own_line (tie ∷ []) [] 100) (line ∷ [])
lines_example =
    order_lines-own (tie ∷ []) [] 100 carrier (λ c. c) 8 (some 1) (line ∷ []) shop {p = priced}
      quote_whole (refl, tt)

same_product_example :
    let first : CreateOrderItem = record { product_id = 5; quantity = 1; color = some 1 } in
    let second : CreateOrderItem = record { product_id = 5; quantity = 2; color = some 2 } in
    let t = price_items (tie ∷ []) [] 100 (first ∷ second ∷ []) no_totals in
    (sum_by (λ (l : OrderLine). l.line_total_vnd) (order_lines (first ∷ second ∷ []) t.item_pricing)
      ≡ 2 * to_vnd (unit_price (tie ∷ []) [] 100 5 * 2))
    × (t.items_total ≡ unit_price (tie ∷ []) [] 100 5 * (1 + 2))
same_product_example = same_product_lines (tie ∷ []) [] 100 5 1 2 (some 1) (some 2)

abbrev discount : Discount
discount = record { amount = 3000000; coupon_id = some 11 }

accepted : resolve_discount_amount (λ c. c) (some 1) 30000000 8 100 shop ≡ ok discount
unfolding resolve_discount_amount discount_found discount_of
accepted = refl

accepted_example :
    (db' : Db) × (claim_coupon 11 8 60 100 shop ≡ claimed db')
    × (db'.redemptions ≡ redemption_of 11 8 60 shop ∷ shop.redemptions)
accepted_example =
    accepted_coupon_claimed (λ c. c) (some 1) 30000000 8 60 100 shop {d = discount} {id = 11}
      (refl, tt) accepted refl refl

abbrev draw : Draw
draw = record { now = 1700000012345; random = 7 }

first_free_example :
    create_with_unique_order_code insert_code
      (draw ∷ record draw { random = 8 } ∷ [])
      (1234507 ∷ [])
    ≡ first_free (some 1234508) (1234507 ∷ [])
unfolding generate_order_code
first_free_example = creates_first_free (draw ∷ record draw { random = 8 } ∷ []) (1234507 ∷ [])

digits_example :
    (generate_order_code draw < 100000000)
    × ((generate_order_code draw < 10000000) ↔ (1700000012345 % 1000000 < 100000))
digits_example = order_code_digits draw (omega arith)

dressed_example :
    (layer_combination_error (LayerRole.outer ∷ LayerRole.bottom ∷ []) ≡ none)
    ↔ IsOutfit (LayerRole.outer ∷ LayerRole.bottom ∷ [])
dressed_example = accepted_iff_IsOutfit (LayerRole.outer ∷ LayerRole.bottom ∷ [])

abbrev measured : Measurement
measured f = some 5000

abbrev trousers : Garment
trousers = record { category = GarmentCategory.lower; garment_type = none }

measured_example :
    (get_missing_measurements (some measured) (trousers ∷ []) ≡ [])
    ↔ All
        (λ g.
          All
            (λ f. is_numeric_measurement_value (value_of (some measured) f) ≡ true)
            (resolve_item_required_fields g))
        (trousers ∷ [])
measured_example = nothing_missing_iff (some measured) (trousers ∷ [])

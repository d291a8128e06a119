-- ===== src/Tests/Selling.antt =====
-- Carts and sale prices.
use fashion_ai_be.Prelude.{
  Bool, ◌+◌, ◌-◌, ◌*◌, ◌<◌, ◌≤◌, ◌≡◌, refl, true, none, List, some, [], ◌∷◌, arith,
}
use fashion_ai_be.Cart.Items.{Texts, CartItem, Shelf, AddCartItemDto, add_item, add_item_between}
use fashion_ai_be.Cart.Limits.{IsCart}
use fashion_ai_be.Cart.Changes.{IsNearlyCart, add_item-IsCart}
use fashion_ai_be.Cart.Merge.{merge}
use fashion_ai_be.Cart.Resent.{merge_again}
use fashion_ai_be.Cart.Purchased.{PurchasedItem, CartLine, remove_purchased_items}
use fashion_ai_be.Cart.Cleared.{remove_purchased_items-IsCart}
use fashion_ai_be.Sales.Pricing.{
  PricedProduct, CampaignItem, candidate_of, best_from, resolve_sale_price,
  resolve_sale_for_products,
}
use fashion_ai_be.Sales.Best.{IsBest, sale_price_bounds, resolve_sale-IsBest}

abbrev item : CartItem
item = record { id = 1; user_id = 7; product_id = 5; color = 2; combo_type = 0; quantity = 999 }

abbrev shelf : Shelf
shelf = record {
  products = record { id = 5; is_active = true; colors = 2 ∷ [] } ∷ [];
  items = item ∷ [];
  next_id = 2;
}

abbrev texts : Texts
texts = record { trim = λ t. t; to_lower_case = λ t. t }

abbrev dto : AddCartItemDto
dto = record { product_id = 5; color = some 2; combo_type = none; quantity = 3 }

shelf-IsCart : IsCart shelf
shelf-IsCart = record { distinct = (refl, tt); orderable = ground arith; short = λ k. ground arith }

abbrev raised_shelf : Shelf
raised_shelf = (add_item texts 7 dto shelf).0

raised_shelf-IsCart : IsCart raised_shelf
raised_shelf-IsCart =
    (add_item-IsCart texts 7 dto shelf shelf (omega arith) (omega arith) shelf-IsCart
      shelf-IsCart).0

add_example :
    IsCart (add_item texts 7 dto shelf).0
    × IsNearlyCart (add_item_between texts 7 dto shelf raised_shelf).0
add_example =
    add_item-IsCart texts 7 dto shelf raised_shelf (omega arith) (omega arith) shelf-IsCart
      raised_shelf-IsCart

abbrev bought : PurchasedItem
bought = record { product_id = 5; quantity = 999; color = some 2; combo_type = none }

abbrev as_given : CartLine → CartLine → Bool
as_given l x = true

cleared_example : IsCart (remove_purchased_items texts as_given 7 (bought ∷ []) shelf).0
cleared_example = remove_purchased_items-IsCart texts as_given 7 (bought ∷ []) shelf shelf-IsCart

abbrev product : PricedProduct
product = record { id = 5; price = 10000000 }

abbrev small : CampaignItem
small = record {
  product_id = 5;
  campaign_id = 1;
  discount_percent = 1000;
  is_active = true;
  starts_at = none;
  ends_at = some 900;
}

abbrev large : CampaignItem
large = record small { campaign_id = 2; discount_percent = 2500 }

bounds_example :
    let price = resolve_sale_price (100000 * 100) 2500 in
    (price ≤ 100000)
    × (price * 10000 ≤ 100000 * (10000 - 2500) + 5000)
    × (100000 * (10000 - 2500) < price * 10000 + 5000)
bounds_example = sale_price_bounds 100000 2500 refl

large_found :
    resolve_sale_for_products (product ∷ []) (small ∷ large ∷ []) 100 5
    ≡ some (candidate_of product large)
unfolding resolve_sale_for_products best_from resolve_sale_price
large_found = refl

sale_example : IsBest 100 product (small ∷ large ∷ []) (candidate_of product large)
sale_example =
    resolve_sale-IsBest (product ∷ []) (small ∷ large ∷ []) 100 5 {product = product} refl
      (candidate_of product large) large_found

abbrev guest_items : List AddCartItemDto
guest_items = dto ∷ record dto { color = none; quantity = 4 } ∷ record dto { product_id = 6 } ∷ []

again_example :
    let merged = (merge texts as_given 7 guest_items shelf).0 in
    (merge texts as_given 7 guest_items merged).0 ≡ merged
again_example = merge_again texts as_given 7 guest_items shelf

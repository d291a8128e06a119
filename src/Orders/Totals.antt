-- ===== src/Orders/Totals.antt =====
-- What the price of a new order promises, and what its lines record.
use fashion_ai_be.Prelude.{
  ℕ, ◌+◌, ◌*◌, ◌==◌, ==_iff, ◌<◌, ◌≡◌, refl, ap, ◌∙◌, inl, inr, Bool, false, Option, List, [], ◌∷◌,
  map, arith, All, any, sum_by, Bool-cases,
}
use fashion_ai_be.Schema.Shop.{Db}
use fashion_ai_be.Sales.Pricing.{PricedProduct, CampaignItem}
use fashion_ai_be.Orders.Tx.{Result, ok, err}
use fashion_ai_be.Orders.Pricing.{
  CreateOrderItem, OrderItemPricing, Totals, OrderPricing, OrderLine, Discount, all_active,
  unit_price, price_item, price_items, no_totals, order_weight, with_discount, with_fee,
  build_order_pricing, to_vnd, pricing_for, order_lines, line_of,
}

with_discount_total :
    (t : Totals) (fee : ℕ) (d : Result Discount) {p : OrderPricing}
    → with_discount t fee d ≡ ok p
    → (p.items_total ≡ t.items_total)
      × (p.item_pricing ≡ t.item_pricing)
      × (p.total + p.discount_amount ≡ p.items_total + p.shipping_fee)
      × (0 < p.total)
unfolding with_discount
with_discount_total t fee (err e) h = cc
with_discount_total t fee (ok d) h = ground arith

with_fee_total :
    (t : Totals) (discount : ℕ → Result Discount) (fee : Result ℕ) {p : OrderPricing}
    → with_fee t discount fee ≡ ok p
    → (p.items_total ≡ t.items_total)
      × (p.item_pricing ≡ t.item_pricing)
      × (p.total + p.discount_amount ≡ p.items_total + p.shipping_fee)
      × (0 < p.total)
unfolding with_fee
with_fee_total t discount (err e) h = cc
with_fee_total t discount (ok fee) h = with_discount_total t (fee * 100) (discount t.items_total) h

module _ (products : List PricedProduct) (rows : List CampaignItem) (at : ℕ) where
  abbrev pub item_total : CreateOrderItem → ℕ
  item_total i = unit_price products rows at i.product_id * i.quantity

  price_items_sum :
      (items : List CreateOrderItem) (t : Totals)
      → (price_items products rows at items t).items_total ≡ t.items_total + sum_by item_total items
  unfolding price_items
  price_items_sum [] t = omega arith
  price_items_sum (i ∷ is) t = omega (arith, price_items_sum is (price_item products rows at i t))

  -- A line as its own item describes it.
  abbrev pub own_line : CreateOrderItem → OrderLine
  own_line i = record {
    product_id = i.product_id;
    quantity = i.quantity;
    price = unit_price products rows at i.product_id;
    line_total_vnd = to_vnd (item_total i);
  }

  abbrev names : ℕ → CreateOrderItem → Bool
  names id i = i.product_id == id

  abbrev pub Distinct : List CreateOrderItem → Type 0
  Distinct [] = Unit
  Distinct (i ∷ is) = (any (names i.product_id) is ≡ false) × Distinct is

  -- The entry of a product that no further item names stays.
  pricing_kept :
      (id : ℕ) (items : List CreateOrderItem) (t : Totals)
      → any (names id) items ≡ false
      → pricing_for id (price_items products rows at items t).item_pricing
        ≡ pricing_for id t.item_pricing
  unfolding price_items
  pricing_kept id [] t h = refl
  pricing_kept id (i ∷ is) t h =
      ground (arith, pricing_kept id is (price_item products rows at i t))

  abbrev IsOwn : List OrderItemPricing → CreateOrderItem → Type 0
  IsOwn ps i = line_of (pricing_for i.product_id ps) i ≡ own_line i

  All-IsOwn :
      (items : List CreateOrderItem) (t : Totals)
      → Distinct items
      → All (IsOwn (price_items products rows at items t).item_pricing) items
  unfolding price_items
  All-IsOwn [] t h = tt
  All-IsOwn (i ∷ is) t h = (
    ap (λ p. line_of p i) (pricing_kept i.product_id is (price_item products rows at i t) h.0)
        ∙ rw ((==_iff i.product_id i.product_id).1 refl) refl,
    All-IsOwn is (price_item products rows at i t) h.1,
  )

  lines-map :
      (items : List CreateOrderItem) (ps : List OrderItemPricing)
      → All (IsOwn ps) items
      → order_lines items ps ≡ map own_line items
  unfolding order_lines
  lines-map [] ps h = refl
  lines-map (i ∷ is) ps h = ground (arith, h.0, lines-map is ps h.1)

  module _ (carrier : ℕ → ℕ → Result ℕ) (normalize : ℕ → ℕ) (user_id : ℕ) (coupon_code : Option ℕ)
      (items : List CreateOrderItem) (db : Db) {p : OrderPricing}
      (priced : build_order_pricing carrier normalize products rows
          (record { user_id = user_id; coupon_code = coupon_code; at = at })
          items
          db
        ≡ ok p) where
    built :
        (p.items_total ≡ sum_by item_total items)
        × (p.item_pricing ≡ (price_items products rows at items no_totals).item_pricing)
        × (p.total + p.discount_amount ≡ p.items_total + p.shipping_fee)
        × (0 < p.total)
    unfolding build_order_pricing
    built = elim (Bool-cases (all_active products items)) [
      | inl found ↦
          let t = price_items products rows at items no_totals in
          let facts =
            with_fee_total t _ (carrier (order_weight items) t.items_total) {p = p}
              (rw found at priced) in
          (facts.0 ∙ price_items_sum items no_totals ∙ omega arith, facts.1, facts.2, facts.3)
      | inr missing ↦ absurd (ground (arith, rw missing at priced))
    ]

    -- A price that is made is the sum over the items of the price of a piece times the pieces, plus
    -- the shipping fee, less the discount, and it is above zero.
    pub pricing_total :
        (p.total + p.discount_amount ≡ sum_by item_total items + p.shipping_fee) × (0 < p.total)
    pricing_total = (omega (arith, built.0, built.2), built.3)

    -- Where no product stands on two lines of the order, each line that is stored records the price of
    -- a piece of its own product and its own total.
    pub order_lines-own : Distinct items → order_lines items p.item_pricing ≡ map own_line items
    order_lines-own distinct =
        ap (order_lines items) built.1 ∙ lines-map items _ (All-IsOwn items no_totals distinct)

  -- Two lines of one product, as they come in two colours, both record the total of the second: what
  -- the lines record adds up to twice that, while the order's items cost the price of a piece times
  -- the pieces of both.
  pub same_product_lines :
      (id n m : ℕ) (red blue : Option ℕ)
      → let first : CreateOrderItem = record { product_id = id; quantity = n; color = red } in
        let second : CreateOrderItem = record { product_id = id; quantity = m; color = blue } in
        let t = price_items products rows at (first ∷ second ∷ []) no_totals in
        (sum_by
            (λ (l : OrderLine). l.line_total_vnd)
            (order_lines (first ∷ second ∷ []) t.item_pricing)
          ≡ 2 * to_vnd (unit_price products rows at id * m))
        × (t.items_total ≡ unit_price products rows at id * (n + m))
  unfolding price_items order_lines
  same_product_lines id n m red blue =
      let own = (==_iff id id).1 refl in (rw own (omega arith), omega arith)

-- ===== src/Sales/Pricing.antt =====
-- `resolveSalePrice`, `resolveSaleForProducts` and `isBetterSale` of
-- src/modules/sale-campaigns/sale-pricing.service.ts. A price and a percentage are in hundredths, and
-- the fractions are computed exactly. Ids are numbers in the order of the texts of the source.
use fashion_ai_be.Prelude.{
  ℕ, ◌+◌, ◌-◌, ◌*◌, ◌/◌, ◌==◌, leb, ltb, Bool, true, false, not, ◌&&◌, Option, none, some, List, [],
  ◌∷◌, find, if◌then◌else◌,
}

pub record PricedProduct : Type 0 where
  pub id : ℕ
  pub price : ℕ

-- a row of `SaleCampaignItem` with its campaign
pub record CampaignItem : Type 0 where
  pub product_id : ℕ
  pub campaign_id : ℕ
  pub discount_percent : ℕ
  pub is_active : Bool
  pub starts_at : Option ℕ
  pub ends_at : Option ℕ

pub record SaleCandidate : Type 0 where
  pub campaign_id : ℕ
  pub percent : ℕ
  pub sale_price : ℕ
  pub ends_at : Option ℕ

-- `resolveSalePrice`, in VND; `Math.round` rounds a half up
unfoldable pub resolve_sale_price : ℕ → ℕ → ℕ
resolve_sale_price list_price percent = (list_price * (10000 - percent) + 500000) / 1000000

abbrev starts_by : ℕ → Option ℕ → Bool
starts_by now none = true
starts_by now (some t) = leb t now

abbrev ends_after : ℕ → Option ℕ → Bool
ends_after now none = true
ends_after now (some t) = ltb now t

-- the condition of the query
abbrev pub is_running : ℕ → CampaignItem → Bool
is_running now c = c.is_active && starts_by now c.starts_at && ends_after now c.ends_at

-- `percent > 0 && percent < 100`
abbrev pub is_percent : ℕ → Bool
is_percent p = ltb 0 p && ltb p 10000

-- `next` before `current`, where no end is after every end
abbrev pub ends_before : Option ℕ → Option ℕ → Bool
ends_before none _ = false
ends_before (some s) none = true
ends_before (some s) (some t) = ltb s t

abbrev pub same_end : Option ℕ → Option ℕ → Bool
same_end none none = true
same_end (some s) (some t) = s == t
same_end _ _ = false

-- `isBetterSale`
abbrev pub is_better_sale : SaleCandidate → SaleCandidate → Bool
is_better_sale next current =
    if not (next.sale_price == current.sale_price)
    then ltb next.sale_price current.sale_price
    else if not (same_end next.ends_at current.ends_at)
    then ends_before next.ends_at current.ends_at
    else ltb next.campaign_id current.campaign_id

abbrev pub candidate_of : PricedProduct → CampaignItem → SaleCandidate
candidate_of product c = record {
  campaign_id = c.campaign_id;
  percent = c.discount_percent;
  sale_price = resolve_sale_price product.price c.discount_percent;
  ends_at = c.ends_at;
}

-- a row that gives a candidate for the product
abbrev pub applies : ℕ → PricedProduct → CampaignItem → Bool
applies now product c =
    is_running now c && c.product_id == product.id && is_percent c.discount_percent

abbrev pub better_of : SaleCandidate → Option SaleCandidate → SaleCandidate
better_of next none = next
better_of next (some current) = if is_better_sale next current then next else current

-- one round of the loop over the rows, for one product
abbrev pub consider : ℕ → PricedProduct → CampaignItem → Option SaleCandidate → Option SaleCandidate
consider now product c best =
    if applies now product c then some (better_of (candidate_of product c) best) else best

unfoldable pub best_from :
    ℕ → PricedProduct → List CampaignItem → Option SaleCandidate → Option SaleCandidate
best_from now product [] best = best
best_from now product (c ∷ cs) best = best_from now product cs (consider now product c best)

resolve_found : Option PricedProduct → List CampaignItem → ℕ → Option SaleCandidate
resolve_found none rows now = none
resolve_found (some product) rows now = best_from now product rows none

-- `resolveSaleForProducts`: the map from product ids as a function. Of two products with one id, the
-- first counts.
unfoldable pub resolve_sale_for_products :
    List PricedProduct → List CampaignItem → ℕ → ℕ → Option SaleCandidate
unfolding resolve_found
resolve_sale_for_products products rows now id =
    resolve_found (find (λ p. p.id == id) products) rows now

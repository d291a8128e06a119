-- ===== src/Sales/Best.antt =====
-- The sale that a product gets is the best that runs.
use fashion_ai_be.Prelude.{
  ℕ, ◌+◌, ◌-◌, ◌*◌, ◌/◌, ◌<◌, ◌≤◌, ◌==◌, ◌≡◌, ◌⊎◌, refl, inl, inr, true, false, Option, none, some,
  List, [], ◌∷◌, arith, All, All-map, All-find_many, find_many, find, any, Bool-cases,
}
use mathlib.Core.Path.{subst}
use fashion_ai_be.Sales.Ahead.{IsAhead, unbeaten-IsAhead}
use fashion_ai_be.Sales.Pricing.{
  PricedProduct, CampaignItem, SaleCandidate, resolve_sale_price, is_percent, is_better_sale,
  candidate_of, applies, consider, best_from, better_of, resolve_sale_for_products,
}

rounded :
    (n : ℕ)
    → ((100 * n + 500000) / 1000000 * 10000 ≤ n + 5000)
      × (n < (100 * n + 500000) / 1000000 * 10000 + 5000)
rounded n = ground arith

-- A sale price is within half a VND of the exact one, and below the list price or equal to it, where
-- the list price is a whole number of VND.
pub sale_price_bounds :
    (vnd percent : ℕ)
    → is_percent percent ≡ true
    → let price = resolve_sale_price (vnd * 100) percent in
      (price ≤ vnd)
      × (price * 10000 ≤ vnd * (10000 - percent) + 5000)
      × (vnd * (10000 - percent) < price * 10000 + 5000)
unfolding resolve_sale_price
sale_price_bounds vnd percent h =
    let rest = 10000 - percent in
    let whole : percent + rest ≡ 10000 = ground arith in
    let split : vnd * percent + vnd * rest ≡ vnd * 10000 = grind arith in
    let scaled : vnd * 100 * rest ≡ 100 * (vnd * rest) = grind arith in
    rw scaled (
      ground (arith, rounded (vnd * rest), split),
      (rounded (vnd * rest)).0,
      (rounded (vnd * rest)).1,
    )

better-neg_trans :
    (a b c : SaleCandidate)
    → is_better_sale a b ≡ false
    → is_better_sale b c ≡ false
    → is_better_sale a c ≡ false
better-neg_trans a b c h k = ground arith

better_asym : (a b : SaleCandidate) → is_better_sale a b ≡ true → is_better_sale b a ≡ false
better_asym a b h = ground arith

better_irrefl : (a : SaleCandidate) → is_better_sale a a ≡ false
better_irrefl a = ground arith

-- The candidate is at least as good as what stood before.
NoWorse : Option SaleCandidate → SaleCandidate → Type 0
NoWorse none b = Unit
NoWorse (some old) b = is_better_sale old b ≡ false

consider-NoWorse :
    (now : ℕ) (product : PricedProduct) (c : CampaignItem) (best : Option SaleCandidate)
    (b : SaleCandidate)
    → NoWorse (consider now product c best) b
    → NoWorse best b
      × (applies now product c ≡ true → is_better_sale (candidate_of product c) b ≡ false)
unfolding NoWorse
consider-NoWorse now product c none b h = (tt, λ e. rw e at h)
consider-NoWorse now product c (some old) b h = elim (Bool-cases (applies now product c)) [
  | inr other ↦ (rw other at h, λ e. cc)
  | inl one ↦ elim (Bool-cases (is_better_sale (candidate_of product c) old)) [
    | inl better ↦
        let new_best : is_better_sale (candidate_of product c) b ≡ false = rw (one, better) at h in
        (
          better-neg_trans old (candidate_of product c) b
              (better_asym (candidate_of product c) old better) new_best,
          λ e. new_best,
        )
    | inr not_better ↦
        let old_best : is_better_sale old b ≡ false = rw (one, not_better) at h in
        (old_best, λ e. better-neg_trans (candidate_of product c) old b not_better old_best)
  ]
]

-- None of the rows that apply is better by the code's own test.
abbrev Unbeaten : ℕ → PricedProduct → List CampaignItem → SaleCandidate → Type 0
Unbeaten now product rows b =
    All (λ c. applies now product c ≡ true → is_better_sale (candidate_of product c) b ≡ false) rows

-- The candidate is that of one of the rows that apply.
unfoldable pub IsOffered : ℕ → PricedProduct → List CampaignItem → SaleCandidate → Type 0
IsOffered now product [] b = ⊥
IsOffered now product (c ∷ cs) b =
    ((applies now product c ≡ true) × (candidate_of product c ≡ b)) ⊎ IsOffered now product cs b

-- The candidate is that of a row that applies, and ahead of those of all rows that apply.
abbrev pub IsBest : ℕ → PricedProduct → List CampaignItem → SaleCandidate → Type 0
IsBest now product rows b =
    IsOffered now product rows b
    × All (λ c. IsAhead b (candidate_of product c)) (find_many (applies now product) rows)

All-IsAhead :
    (now : ℕ) (product : PricedProduct) (rows : List CampaignItem) (b : SaleCandidate)
    → Unbeaten now product rows b
    → All (λ c. IsAhead b (candidate_of product c)) (find_many (applies now product) rows)
All-IsAhead now product rows b h =
    All-map _ _ (find_many (applies now product) rows)
      (λ c f. unbeaten-IsAhead b (candidate_of product c) (f.0 f.1))
      (All-find_many
        (λ c. applies now product c ≡ true → is_better_sale (candidate_of product c) b ≡ false)
        (applies now product) rows h)

consider_cases :
    (now : ℕ) (product : PricedProduct) (c : CampaignItem) (best : Option SaleCandidate)
    (b : SaleCandidate)
    → consider now product c best ≡ some b
    → (best ≡ some b) ⊎ (applies now product c ≡ true) × (candidate_of product c ≡ b)
consider_cases now product c best b e = elim (Bool-cases (applies now product c)) [
  | inr other ↦ inl (rw other at e)
  | inl one ↦ met best one (rw one at e)
]
  where
    met :
        (best : Option SaleCandidate)
        → applies now product c ≡ true
        → some (better_of (candidate_of product c) best) ≡ some b
        → (best ≡ some b) ⊎ (applies now product c ≡ true) × (candidate_of product c ≡ b)
    met none one f = inr (one, ground (arith, f))
    met (some old) one f = elim (Bool-cases (is_better_sale (candidate_of product c) old)) [
      | inl better ↦ inr (one, ground (arith, rw better at f))
      | inr not_better ↦ inl (rw not_better at f)
    ]

best_from-IsOffered :
    (now : ℕ) (product : PricedProduct) (rows : List CampaignItem) (best : Option SaleCandidate)
    (b : SaleCandidate)
    → best_from now product rows best ≡ some b
    → (best ≡ some b) ⊎ IsOffered now product rows b
unfolding best_from IsOffered
best_from-IsOffered now product [] best b e = inl e
best_from-IsOffered now product (c ∷ cs) best b e =
    elim (best_from-IsOffered now product cs (consider now product c best) b e) [
      | inr later ↦ inr (inr later)
      | inl held ↦ elim (consider_cases now product c best b held) [
        | inl before ↦ inl before
        | inr mine ↦ inr (inl mine)
      ]
    ]

best_from-Unbeaten :
    (now : ℕ) (product : PricedProduct) (rows : List CampaignItem) (best : Option SaleCandidate)
    {b : SaleCandidate}
    → best_from now product rows best ≡ some b
    → NoWorse best b × Unbeaten now product rows b
unfolding best_from NoWorse
best_from-Unbeaten now product [] none {b} e = cc
best_from-Unbeaten now product [] (some old) {b} e =
    let same_one : old ≡ b = ground (arith, e) in
    (subst (λ x. is_better_sale old x ≡ false) same_one (better_irrefl old), tt)
best_from-Unbeaten now product (c ∷ cs) best {b} e =
    let (standing, rest) =
      best_from-Unbeaten now product cs (consider now product c best) {b = b} e in
    let (before, mine) = consider-NoWorse now product c best b standing in (before, (mine, rest))

best_from-none :
    (now : ℕ) (product : PricedProduct) (rows : List CampaignItem) (best : Option SaleCandidate)
    → best_from now product rows best ≡ none
    → (best ≡ none) × (any (applies now product) rows ≡ false)
unfolding best_from
best_from-none now product [] best e = (e, refl)
best_from-none now product (c ∷ cs) best e =
    let (before, rest) = best_from-none now product cs (consider now product c best) e in
    elim (Bool-cases (applies now product c)) [
      | inl one ↦ absurd (ground (arith, rw one at before))
      | inr other ↦ (rw other at before, rw other rest)
    ]

module _ (products : List PricedProduct) (rows : List CampaignItem) (now id : ℕ)
    {product : PricedProduct} (found : find (λ p. p.id == id) products ≡ some product) where
  -- A product of the list for which no sale is found is in no campaign that runs.
  resolve_sale_none :
      resolve_sale_for_products products rows now id ≡ none → any (applies now product) rows ≡ false
  unfolding resolve_sale_for_products
  resolve_sale_none e = (best_from-none now product rows none (rw found at e)).1

  -- The sale that is found is that of a campaign that runs and holds the product, and no other such
  -- campaign has a lower price, or the same price and an earlier end, or the same of both and a lower
  -- id.
  pub resolve_sale-IsBest :
      (b : SaleCandidate)
      → resolve_sale_for_products products rows now id ≡ some b
      → IsBest now product rows b
  unfolding resolve_sale_for_products
  resolve_sale-IsBest b e =
      let chosen : best_from now product rows none ≡ some b = rw found at e in
      elim (best_from-IsOffered now product rows none b chosen) [
        | inl nothing ↦ absurd (ground (arith, nothing))
        | inr offered ↦ (
          offered,
          All-IsAhead now product rows b
              (best_from-Unbeaten now product rows none {b = b} chosen).1,
        )
      ]

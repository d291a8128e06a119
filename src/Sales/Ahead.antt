-- ===== src/Sales/Ahead.antt =====
-- The order in which sales of one product are preferred, and that the test of the code decides it.
use fashion_ai_be.Prelude.{
  ℕ, ◌<◌, ◌≤◌, ◌==◌, ==_iff, ◌≡◌, ◌⊎◌, refl, sym, ap, inl, inr, true, false, Option, none, some,
  arith, Bool-cases,
}
use fashion_ai_be.Sales.Pricing.{SaleCandidate, is_better_sale, ends_before, same_end}

-- The first end is before the second, where no end is after every end.
abbrev pub EndsBefore : Option ℕ → Option ℕ → Type 0
EndsBefore none _ = ⊥
EndsBefore (some s) none = Unit
EndsBefore (some s) (some t) = s < t

-- A lower price; or the same price and an earlier end; or the same of both, and no higher id of the
-- campaign.
abbrev pub IsAhead : SaleCandidate → SaleCandidate → Type 0
IsAhead b c =
    (b.sale_price < c.sale_price)
    ⊎ ((b.sale_price ≡ c.sale_price)
        × (EndsBefore b.ends_at c.ends_at
            ⊎ ((b.ends_at ≡ c.ends_at) × (b.campaign_id ≤ c.campaign_id))))

ends_first : (s t : Option ℕ) → same_end t s ≡ false → ends_before t s ≡ false → EndsBefore s t
ends_first none none h k = ground arith
ends_first none (some t) h k = ground arith
ends_first (some s) none h k = tt
ends_first (some s) (some t) h k = ground arith

ends_level : (s t : Option ℕ) → same_end t s ≡ true → s ≡ t
ends_level none none h = refl
ends_level none (some t) h = ground arith
ends_level (some s) none h = ground arith
ends_level (some s) (some t) h = ap some (sym ((==_iff t s).0 h))

pub unbeaten-IsAhead : (b c : SaleCandidate) → is_better_sale c b ≡ false → IsAhead b c
unbeaten-IsAhead b c h = elim (Bool-cases (c.sale_price == b.sale_price)) [
  | inr differs ↦ inl (ground arith)
  | inl level ↦ inr (
    ground arith,
    elim (Bool-cases (same_end c.ends_at b.ends_at)) [
      | inr other ↦ inl (ends_first b.ends_at c.ends_at other (ground arith))
      | inl one ↦ inr (ends_level b.ends_at c.ends_at one, ground arith)
    ],
  )
]

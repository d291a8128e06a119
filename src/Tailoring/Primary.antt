-- ===== src/Tailoring/Primary.antt =====
-- The garment whose picture goes to the live session: `pickPrimaryIndex` of
-- src/modules/try-on/utils/live-combo.util.ts.
use fashion_ai_be.Prelude.{
  ℕ, zero, suc, ◌+◌, ◌≤◌, ◌≡◌, refl, sym, ◌∙◌, ap, ltb, ◌⊎◌, inl, inr, Option, none, some, List, [],
  ◌∷◌, arith, All, Bool-cases,
}
use fashion_ai_be.Tailoring.Layers.{LayerRole, primary_priority, pick_from, pick_primary_index}

-- The layer at a place of the list.
abbrev pub at_index : List LayerRole → ℕ → Option LayerRole
at_index [] i = none
at_index (l ∷ ls) zero = some l
at_index (l ∷ ls) (suc i) = at_index ls i

abbrev IsLeast : LayerRole → List LayerRole → Type 0
IsLeast r ls = All (λ l. primary_priority r ≤ primary_priority l) ls

-- The loop stays at the best place so far, or leaves it for one further on.
abbrev Picks : LayerRole → ℕ → ℕ → List LayerRole → LayerRole → Type 0
Picks best best_index i ls r =
    ((pick_from best best_index i ls ≡ best_index) × (r ≡ best))
    ⊎ ((j : ℕ) × (pick_from best best_index i ls ≡ i + j) × (at_index ls j ≡ some r))

pick_from_IsLeast :
    (best : LayerRole) (best_index i : ℕ) (ls : List LayerRole)
    → (r : LayerRole) × (primary_priority r ≤ primary_priority best)
      × IsLeast r ls
      × Picks best best_index i ls r
unfolding pick_from
pick_from_IsLeast best best_index i [] = (best, omega arith, tt, inl (refl, refl))
pick_from_IsLeast best best_index i (l ∷ ls) =
    elim (Bool-cases (ltb (primary_priority l) (primary_priority best))) [
      | inl better ↦
          let (r, le, least, picked) = pick_from_IsLeast l i (i + 1) ls in
          let le_best : primary_priority r ≤ primary_priority best = ground (arith, better, le) in
          rw better (
            r,
            le_best,
            (le, least),
            elim picked [
              | inl here ↦ inr (0, here.0 ∙ omega arith, ap some (sym here.1))
              | inr (j, further, there) ↦ inr (suc j, further ∙ omega arith, there)
            ],
          )
      | inr worse ↦
          let (r, le, least, picked) = pick_from_IsLeast best best_index (i + 1) ls in
          let le_l : primary_priority r ≤ primary_priority l = ground (arith, worse, le) in
          rw worse (
            r,
            le,
            (le_l, least),
            elim picked [
              | inl here ↦ inl here
              | inr (j, further, there) ↦ inr (suc j, further ∙ omega arith, there)
            ],
          )
    ]

-- The place that is picked for one garment or more is one of theirs, and no garment comes before its
-- layer in the order of OUTER, FULL_BODY, INNER, BOTTOM.
picked_is_least :
    (l : LayerRole) (ls : List LayerRole)
    → (r : LayerRole) × (at_index (l ∷ ls) (pick_primary_index (l ∷ ls)) ≡ some r)
      × All (λ x. primary_priority r ≤ primary_priority x) (l ∷ ls)
unfolding pick_primary_index
picked_is_least l ls =
    let (r, le, least, picked) = pick_from_IsLeast l 0 1 ls in
    (
      r,
      elim picked [
        | inl here ↦ ap (at_index (l ∷ ls)) here.0 ∙ ap some (sym here.1)
        | inr (j, further, there) ↦
            let step : pick_from l 0 1 ls ≡ suc j = further ∙ omega arith in
            ap (at_index (l ∷ ls)) step ∙ there
      ],
      (le, least),
    )

-- ===== src/Tailoring/Outfits.antt =====
-- Which garments may be tried on together, and which of them gives the picture.
use fashion_ai_be.Prelude.{
  ℕ, ◌==◌, ltb, ◌≤◌, ◌≡◌, refl, ◌↔◌, ◌⊎◌, inl, inr, Bool, true, false, ◌&&◌, none, some, List, [],
  ◌∷◌, length, arith, All, includes, if◌then◌else◌, Bool-cases,
}
use fashion_ai_be.Tailoring.Layers.{
  LayerRole, LayerError, layer_keyed, max_try_on_layers, repeats, layer_combination_error,
}

abbrev pub Distinct : List LayerRole → Type 0
Distinct [] = Unit
Distinct (l ∷ ls) = (includes ls l ≡ false) × Distinct ls

-- An outfit is one to three garments, no two of one layer; one for the full body stands alone.
abbrev pub IsOutfit : List LayerRole → Type 0
IsOutfit ls =
    (1 ≤ length ls)
    × (length ls ≤ max_try_on_layers)
    × ((length ls ≤ 1) ⊎ (includes ls LayerRole.full_body ≡ false))
    × Distinct ls

-- What was not seen before, with one more that was seen.
unseen_more :
    (l : LayerRole) (seen ls : List LayerRole)
    → All (λ x. includes (l ∷ seen) x ≡ false) ls
      ↔ ((includes ls l ≡ false) × All (λ x. includes seen x ≡ false) ls)
unseen_more l seen [] = ((λ h. (refl, tt)), (λ h. tt))
unseen_more l seen (x ∷ xs) =
    let rest = unseen_more l seen xs in
    (
      (λ h. let r = rest.0 h.1 in (ground (arith, h.0, r.0), (ground (arith, h.0), r.1))),
      (λ h. (ground (arith, h.0, h.1.0), rest.1 (ground (arith, h.0), h.1.1))),
    )

repeats_iff :
    (seen ls : List LayerRole)
    → (repeats seen ls ≡ false) ↔ (Distinct ls × All (λ x. includes seen x ≡ false) ls)
unfolding repeats
repeats_iff seen [] = ((λ h. (tt, tt)), (λ h. refl))
repeats_iff seen (l ∷ ls) = elim (Bool-cases (includes seen l)) [
  | inl hit ↦ rw hit ((λ h. cc), (λ h. cc (h.1.0)))
  | inr new ↦
      let rest = repeats_iff (l ∷ seen) ls in
      let more = unseen_more l seen ls in
      rw new (
        (λ h. let r = rest.0 h in let m = more.0 r.1 in ((m.0, r.0), (refl, m.1))),
        (λ h. rest.1 (h.0.1, more.1 (h.0.0, h.1.1))),
      )
]

none_seen : (ls : List LayerRole) → All (λ x. includes [] x ≡ false) ls
none_seen [] = tt
none_seen (l ∷ ls) = (refl, none_seen ls)

-- The four tests in the order of the code.
first_error :
    (a b c d : Bool)
    → ((if a
          then some LayerError.no_garment
          else if b
          then some LayerError.too_many
          else if c
          then some LayerError.full_not_alone
          else if d
          then some LayerError.repeated
          else none)
        ≡ none)
      ↔ ((a ≡ false) × (b ≡ false) × (c ≡ false) × (d ≡ false))
first_error true b c d = ((λ h. cc), (λ h. cc (h.0)))
first_error false true c d = ((λ h. cc), (λ h. cc (h.1)))
first_error false false true d = ((λ h. cc), (λ h. cc (h.2)))
first_error false false false true = ((λ h. cc), (λ h. cc (h.3)))
first_error false false false false = ((λ h. (refl, refl, refl, refl)), (λ h. refl))

alone_iff : (n : ℕ) (b : Bool) → ((ltb 1 n && b) ≡ false) ↔ ((n ≤ 1) ⊎ (b ≡ false))
alone_iff n b = elim (Bool-cases (ltb 1 n)) [
  | inl more ↦
      rw more ((λ h. inr h), (λ h. elim h [ inl few ↦ ground (arith, more, few) | inr e ↦ e ]))
  | inr few ↦ rw few ((λ h. inl (ground (arith, few))), (λ h. refl))
]

-- A list of layers is accepted exactly when it is an outfit.
pub accepted_iff_IsOutfit :
    (ls : List LayerRole) → (layer_combination_error ls ≡ none) ↔ IsOutfit ls
unfolding layer_combination_error
accepted_iff_IsOutfit ls =
    let tests =
      first_error (length ls == 0) (ltb max_try_on_layers (length ls))
        (ltb 1 (length ls) && includes ls LayerRole.full_body) (repeats [] ls) in
    let alone = alone_iff (length ls) (includes ls LayerRole.full_body) in
    let repeated_once = repeats_iff [] ls in
    (
      (λ h.
          let t = tests.0 h in
          (ground (arith, t.0), ground (arith, t.1), alone.0 t.2, (repeated_once.0 t.3).0)),
      (λ h. tests.1 (
        ground (arith, h.0),
        ground (arith, h.1),
        alone.1 h.2,
        repeated_once.1 (h.3, none_seen ls),
      )),
    )

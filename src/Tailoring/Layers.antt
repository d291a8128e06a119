-- ===== src/Tailoring/Layers.antt =====
-- Garments worn together in a try-on: src/modules/products/utils/layer-role.util.ts,
-- src/modules/try-on/utils/garment-combo.util.ts and `pickPrimaryIndex` of
-- src/modules/try-on/utils/live-combo.util.ts. The messages are left out.
use fashion_ai_be.Prelude.{
  ℕ, zero, suc, ◌+◌, ◌==◌, ltb, ◌≡◌, refl, sym, ap, ◌∙◌, Bool, true, false, ◌&&◌, Option, none,
  some, List, [], ◌∷◌, length, Keyed, includes, if◌then◌else◌,
}
use fashion_ai_be.Tailoring.Measurements.{GarmentType, GarmentCategory}

pub data LayerRole : Type 0 where
  outer inner bottom full_body : LayerRole

abbrev layer_key : LayerRole → ℕ
layer_key LayerRole.outer = 0
layer_key LayerRole.inner = 1
layer_key LayerRole.bottom = 2
layer_key LayerRole.full_body = 3

abbrev of_layer_key : ℕ → LayerRole
of_layer_key zero = LayerRole.outer
of_layer_key (suc zero) = LayerRole.inner
of_layer_key (suc (suc zero)) = LayerRole.bottom
of_layer_key _ = LayerRole.full_body

of_layer_key-layer_key : (r : LayerRole) → of_layer_key (layer_key r) ≡ r
of_layer_key-layer_key LayerRole.outer = refl
of_layer_key-layer_key _ = refl

pub layer_key-injective : (r s : LayerRole) → layer_key r ≡ layer_key s → r ≡ s
layer_key-injective r s h =
    sym (of_layer_key-layer_key r) ∙ ap of_layer_key h ∙ of_layer_key-layer_key s

instance abbrev pub layer_keyed : Keyed LayerRole
layer_keyed = record { key = layer_key; key-injective = layer_key-injective }

role_of_category : GarmentCategory → LayerRole
role_of_category GarmentCategory.lower = LayerRole.bottom
role_of_category GarmentCategory.full_body = LayerRole.full_body
role_of_category GarmentCategory.upper = LayerRole.inner

role_of_type : Option GarmentType → GarmentCategory → LayerRole
unfolding role_of_category
role_of_type (some GarmentType.jacket) c = LayerRole.outer
role_of_type (some GarmentType.vest) c = LayerRole.outer
role_of_type (some GarmentType.shirt) c = LayerRole.inner
role_of_type (some GarmentType.pants) c = LayerRole.bottom
role_of_type (some GarmentType.skirt) c = LayerRole.bottom
role_of_type (some GarmentType.dress) c = LayerRole.full_body
role_of_type (some GarmentType.jumpsuit) c = LayerRole.full_body
role_of_type none c = role_of_category c

-- `resolveLayerRole`
unfoldable pub resolve_layer_role :
    Option LayerRole → Option GarmentType → GarmentCategory → LayerRole
unfolding role_of_type
resolve_layer_role (some role) t c = role
resolve_layer_role none t c = role_of_type t c

abbrev pub max_try_on_layers : ℕ
max_try_on_layers = 3

-- the loop that looks for a layer that was seen
unfoldable pub repeats : List LayerRole → List LayerRole → Bool
repeats seen [] = false
repeats seen (l ∷ ls) = let rest = repeats (l ∷ seen) ls in if includes seen l then true else rest

pub data LayerError : Type 0 where
  no_garment too_many full_not_alone repeated : LayerError

-- `layerCombinationError`
unfoldable pub layer_combination_error : List LayerRole → Option LayerError
layer_combination_error layers =
    if length layers == 0
    then some no_garment
    else if ltb max_try_on_layers (length layers)
    then some too_many
    else if ltb 1 (length layers) && includes layers LayerRole.full_body
    then some full_not_alone
    else if repeats [] layers
    then some repeated
    else none

-- `PRIMARY_PRIORITY`
abbrev pub primary_priority : LayerRole → ℕ
primary_priority LayerRole.outer = 0
primary_priority LayerRole.full_body = 1
primary_priority LayerRole.inner = 2
primary_priority LayerRole.bottom = 3

-- the loop of `pickPrimaryIndex`, with the layer at the best index so far
unfoldable pub pick_from : LayerRole → ℕ → ℕ → List LayerRole → ℕ
pick_from best best_index i [] = best_index
pick_from best best_index i (l ∷ ls) =
    let better = ltb (primary_priority l) (primary_priority best) in
    pick_from (if better then l else best) (if better then i else best_index) (i + 1) ls

-- `pickPrimaryIndex`
unfoldable pub pick_primary_index : List LayerRole → ℕ
pick_primary_index [] = 0
pick_primary_index (l ∷ ls) = pick_from l 0 1 ls

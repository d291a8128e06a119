-- ===== src/Tailoring/Measurements.antt =====
-- What a tailor needs to know of a customer: src/common/constants/measurement.constants.ts. A
-- measurement is a number in hundredths, as the column stores it; labels and ranges are left out.
use fashion_ai_be.Prelude.{
  ℕ, zero, suc, ltb, ◌≡◌, refl, sym, ap, ◌∙◌, Bool, false, not, Option, none, some, List, [], ◌∷◌,
  find_many, Keyed, includes, if◌then◌else◌,
}

pub data GarmentType : Type 0 where
  shirt vest jacket pants skirt dress jumpsuit : GarmentType

pub data GarmentCategory : Type 0 where
  upper lower full_body : GarmentCategory

pub data MeasurementField : Type 0 where
  height weight chest waist hip shoulder neck sleeve_length wrist thigh : MeasurementField
  knee calf inseam outseam shirt_length underbust : MeasurementField

abbrev pub field_key : MeasurementField → ℕ
field_key MeasurementField.height = 0
field_key MeasurementField.weight = 1
field_key MeasurementField.chest = 2
field_key MeasurementField.waist = 3
field_key MeasurementField.hip = 4
field_key MeasurementField.shoulder = 5
field_key MeasurementField.neck = 6
field_key MeasurementField.sleeve_length = 7
field_key MeasurementField.wrist = 8
field_key MeasurementField.thigh = 9
field_key MeasurementField.knee = 10
field_key MeasurementField.calf = 11
field_key MeasurementField.inseam = 12
field_key MeasurementField.outseam = 13
field_key MeasurementField.shirt_length = 14
field_key MeasurementField.underbust = 15

abbrev of_field_key : ℕ → MeasurementField
of_field_key zero = MeasurementField.height
of_field_key (suc zero) = MeasurementField.weight
of_field_key (suc (suc zero)) = MeasurementField.chest
of_field_key (suc (suc (suc zero))) = MeasurementField.waist
of_field_key (suc (suc (suc (suc zero)))) = MeasurementField.hip
of_field_key (suc (suc (suc (suc (suc zero))))) = MeasurementField.shoulder
of_field_key (suc (suc (suc (suc (suc (suc zero)))))) = MeasurementField.neck
of_field_key (suc (suc (suc (suc (suc (suc (suc zero))))))) = MeasurementField.sleeve_length
of_field_key (suc (suc (suc (suc (suc (suc (suc (suc zero)))))))) = MeasurementField.wrist
of_field_key (suc (suc (suc (suc (suc (suc (suc (suc (suc zero))))))))) = MeasurementField.thigh
of_field_key (suc (suc (suc (suc (suc (suc (suc (suc (suc (suc zero)))))))))) =
    MeasurementField.knee
of_field_key (suc (suc (suc (suc (suc (suc (suc (suc (suc (suc (suc zero))))))))))) =
    MeasurementField.calf
of_field_key (suc (suc (suc (suc (suc (suc (suc (suc (suc (suc (suc (suc zero)))))))))))) =
    MeasurementField.inseam
of_field_key (suc (suc (suc (suc (suc (suc (suc (suc (suc (suc (suc (suc (suc zero))))))))))))) =
    MeasurementField.outseam
of_field_key
      (suc (suc (suc (suc (suc (suc (suc (suc (suc (suc (suc (suc (suc (suc zero)))))))))))))) =
    MeasurementField.shirt_length
of_field_key _ = MeasurementField.underbust

of_field_key-field_key : (f : MeasurementField) → of_field_key (field_key f) ≡ f
of_field_key-field_key MeasurementField.height = refl
of_field_key-field_key _ = refl

pub field_key-injective : (f g : MeasurementField) → field_key f ≡ field_key g → f ≡ g
field_key-injective f g h =
    sym (of_field_key-field_key f) ∙ ap of_field_key h ∙ of_field_key-field_key g

instance abbrev pub field_keyed : Keyed MeasurementField
field_keyed = record { key = field_key; key-injective = field_key-injective }

-- `REQUIRED_MEASUREMENTS_BY_TYPE`
abbrev pub required_measurements_by_type : GarmentType → List MeasurementField
required_measurements_by_type GarmentType.shirt =
    MeasurementField.height ∷ MeasurementField.chest ∷ MeasurementField.shoulder
    ∷ MeasurementField.sleeve_length ∷ MeasurementField.shirt_length ∷ []
required_measurements_by_type GarmentType.vest =
    MeasurementField.height ∷ MeasurementField.chest ∷ MeasurementField.shoulder
    ∷ MeasurementField.shirt_length ∷ []
required_measurements_by_type GarmentType.jacket =
    MeasurementField.height ∷ MeasurementField.chest ∷ MeasurementField.shoulder
    ∷ MeasurementField.sleeve_length ∷ MeasurementField.shirt_length ∷ []
required_measurements_by_type GarmentType.pants =
    MeasurementField.height ∷ MeasurementField.waist ∷ MeasurementField.hip ∷ MeasurementField.thigh
    ∷ MeasurementField.inseam ∷ MeasurementField.outseam ∷ []
required_measurements_by_type GarmentType.skirt =
    MeasurementField.height ∷ MeasurementField.waist ∷ MeasurementField.hip
    ∷ MeasurementField.outseam ∷ []
required_measurements_by_type GarmentType.dress =
    MeasurementField.height ∷ MeasurementField.chest ∷ MeasurementField.waist ∷ MeasurementField.hip
    ∷ MeasurementField.shoulder ∷ MeasurementField.shirt_length ∷ MeasurementField.underbust ∷ []
required_measurements_by_type GarmentType.jumpsuit =
    MeasurementField.height ∷ MeasurementField.chest ∷ MeasurementField.waist ∷ MeasurementField.hip
    ∷ MeasurementField.shoulder ∷ MeasurementField.sleeve_length ∷ MeasurementField.shirt_length
    ∷ MeasurementField.inseam ∷ MeasurementField.outseam ∷ []

-- `REQUIRED_MEASUREMENTS_BY_CATEGORY`
abbrev pub required_measurements_by_category : GarmentCategory → List MeasurementField
required_measurements_by_category GarmentCategory.upper =
    MeasurementField.height ∷ MeasurementField.chest ∷ MeasurementField.shoulder
    ∷ MeasurementField.sleeve_length ∷ MeasurementField.shirt_length ∷ []
required_measurements_by_category GarmentCategory.lower =
    MeasurementField.height ∷ MeasurementField.waist ∷ MeasurementField.hip
    ∷ MeasurementField.outseam ∷ MeasurementField.thigh ∷ []
required_measurements_by_category GarmentCategory.full_body =
    MeasurementField.height ∷ MeasurementField.chest ∷ MeasurementField.waist ∷ MeasurementField.hip
    ∷ MeasurementField.shoulder ∷ MeasurementField.shirt_length ∷ []

-- the columns of `Measurement`
abbrev pub Measurement : Type 0
Measurement = MeasurementField → Option ℕ

-- `isNumericMeasurementValue` of a column
abbrev pub is_numeric_measurement_value : Option ℕ → Bool
is_numeric_measurement_value none = false
is_numeric_measurement_value (some v) = ltb 0 v

-- the columns of a product that decide what is needed
pub record Garment : Type 0 where
  pub category : GarmentCategory
  pub garment_type : Option GarmentType

unfoldable pub required_by : Option GarmentType → GarmentCategory → List MeasurementField
required_by (some t) c = required_measurements_by_type t
required_by none c = required_measurements_by_category c

-- `resolveItemRequiredFields`
unfoldable pub resolve_item_required_fields : Garment → List MeasurementField
unfolding required_by
resolve_item_required_fields g = required_by g.garment_type g.category

-- `Set.add`: a field that is there keeps its place
unfoldable pub add_field : MeasurementField → List MeasurementField → List MeasurementField
add_field f [] = f ∷ []
add_field f (g ∷ gs) = let rest = add_field f gs in if includes (g ∷ []) f then g ∷ gs else g ∷ rest

unfoldable pub add_fields : List MeasurementField → List MeasurementField → List MeasurementField
add_fields [] required = required
add_fields (f ∷ fs) required = add_fields fs (add_field f required)

-- the loop over the products
unfoldable pub add_required : List Garment → List MeasurementField → List MeasurementField
unfolding required_by
add_required [] required = required
add_required (g ∷ gs) required =
    add_required gs (add_fields (required_by g.garment_type g.category) required)

-- `measurement?.[field]`
abbrev pub value_of : Option Measurement → MeasurementField → Option ℕ
value_of none f = none
value_of (some m) f = m f

-- `getMissingMeasurements`
unfoldable pub get_missing_measurements : Option Measurement → List Garment → List MeasurementField
get_missing_measurements m garments =
    find_many (λ f. not (is_numeric_measurement_value (value_of m f))) (add_required garments [])

-- ===== src/Tailoring/Complete.antt =====
-- An order is taken only when every garment in it can be cut.
use fashion_ai_be.Prelude.{
  ◌≡◌, refl, ◌↔◌, inl, inr, Bool, true, not, Option, List, [], ◌∷◌, arith, All, find_many, includes,
  same_iff, Bool-cases,
}
use mathlib.Core.Path.{subst}
use fashion_ai_be.Tailoring.Measurements.{
  MeasurementField, Measurement, Garment, field_keyed, is_numeric_measurement_value,
  resolve_item_required_fields, required_by, add_field, add_fields, add_required, value_of,
  get_missing_measurements,
}

module _ (P : MeasurementField → Type 0) where
  All-add_field :
      (f : MeasurementField) (fs : List MeasurementField)
      → All P (add_field f fs) ↔ (P f × All P fs)
  unfolding add_field
  All-add_field f [] = ((λ h. (h.0, tt)), (λ h. (h.0, tt)))
  All-add_field f (g ∷ gs) = elim (Bool-cases (includes (g ∷ []) f)) [
    | inl there ↦
        let e : g ≡ f = (same_iff g f).0 (ground (arith, there)) in
        rw there ((λ h. (subst P e h.0, h)), (λ h. h.1))
    | inr new ↦ rw new (
      (λ h. let rest = (All-add_field f gs).0 h.1 in (rest.0, (h.0, rest.1))),
      (λ h. (h.1.0, (All-add_field f gs).1 (h.0, h.1.1))),
    )
  ]

  All-add_fields :
      (fs required : List MeasurementField)
      → All P (add_fields fs required) ↔ (All P fs × All P required)
  unfolding add_fields
  All-add_fields [] required = ((λ h. (tt, h)), (λ h. h.1))
  All-add_fields (f ∷ fs) required =
      let rest = All-add_fields fs (add_field f required) in
      let one = All-add_field f required in
      (
        (λ h. let both = rest.0 h in let here = one.0 both.1 in ((here.0, both.0), here.1)),
        (λ h. rest.1 (h.0.1, one.1 (h.0.0, h.1))),
      )

  All-add_required :
      (gs : List Garment) (required : List MeasurementField)
      → All P (add_required gs required)
        ↔ (All (λ g. All P (resolve_item_required_fields g)) gs × All P required)
  unfolding add_required resolve_item_required_fields
  All-add_required [] required = ((λ h. (tt, h)), (λ h. h.1))
  All-add_required (g ∷ gs) required =
      let fields = required_by g.garment_type g.category in
      let rest = All-add_required gs (add_fields fields required) in
      let one = All-add_fields fields required in
      (
        (λ h. let both = rest.0 h in let here = one.0 both.1 in ((here.0, both.0), here.1)),
        (λ h. rest.1 (h.0.1, one.1 (h.0.0, h.1))),
      )

nothing_missing :
    (q : MeasurementField → Bool) (fs : List MeasurementField)
    → (find_many (λ f. not (q f)) fs ≡ []) ↔ All (λ f. q f ≡ true) fs
nothing_missing q [] = ((λ h. tt), (λ h. refl))
nothing_missing q (f ∷ fs) = elim (Bool-cases (q f)) [
  | inl there ↦
      rw there ((λ h. (refl, (nothing_missing q fs).0 h)), (λ h. (nothing_missing q fs).1 h.1))
  | inr missing ↦ rw missing ((λ h. cc), (λ h. cc (h.0)))
]

-- Nothing is missing for an order exactly when the customer's measurements have a value above zero in
-- each field that each of its garments needs.
pub nothing_missing_iff :
    (m : Option Measurement) (garments : List Garment)
    → (get_missing_measurements m garments ≡ [])
      ↔ All
          (λ g.
            All
              (λ f. is_numeric_measurement_value (value_of m f) ≡ true)
              (resolve_item_required_fields g))
          garments
unfolding get_missing_measurements
nothing_missing_iff m garments =
    let q = λ (f : MeasurementField). is_numeric_measurement_value (value_of m f) in
    let none_left = nothing_missing q (add_required garments []) in
    let each = All-add_required (λ f. q f ≡ true) garments [] in
    ((λ h. (each.0 (none_left.0 h)).0), (λ h. none_left.1 (each.1 (h, tt))))

-- ===== src/Prelude/Enums.antt =====
-- Equality of enum values, by a number that stands for each: `===` and `Array.includes` on a list
-- of enum values.
use Prim.Native.Nat.{ℕ}
use mathlib.Core.Path.{◌≡◌, refl}
use mathlib.Core.Logic.{◌↔◌}
use mathlib.Core.Bool.{Bool, true, false}
use mathlib.Core.List.{List, [], ◌∷◌}
use fashion_ai_be.Prelude.Tests.{if◌then◌else◌, ◌==◌, ==_iff}

pub record Keyed {ℓ} (A : Type ℓ) : Type ℓ where
  pub key : A → ℕ
  pub key-injective : (a b : A) → key a ≡ key b → a ≡ b

module _ {ℓ} {A : Type ℓ} ⦃e : Keyed A⦄ where
  abbrev pub same : A → A → Bool
  same a b = e.key a == e.key b

  abbrev pub includes : List A → A → Bool
  includes [] a = false
  includes (x ∷ xs) a = if same x a then true else includes xs a

  pub same_iff : (a b : A) → (same a b ≡ true) ↔ (a ≡ b)
  same_iff a b =
      (λ h. e.key-injective a b ((==_iff _ _).0 h), λ h. rw h ((==_iff (e.key b) (e.key b)).1 refl))

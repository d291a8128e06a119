-- ===== src/Prelude/Rows.antt =====
-- Tables of a database as lists of rows, with the queries that the services make of them: Prisma's
-- `findFirst`, `findMany`, `count`, `updateMany` and `deleteMany` under a Boolean condition.
use Prim.Native.Nat.{ℕ, zero, suc, ◌+◌, ◌<◌}
use mathlib.Core.Path.{◌≡◌, refl, subst, ap}
use mathlib.Core.Logic.{inl, inr}
use mathlib.Core.Bool.{Bool, true, false}
use mathlib.Core.Option
use mathlib.Core.Option.{Option, none, some}
use mathlib.Core.List.{List, [], ◌∷◌}
use native.Mathlib.Omega.{arith}
use fashion_ai_be.Prelude.Tests.{if◌then◌else◌, ◌==◌, Bool-cases}
use fashion_ai_be.Prelude.Lists.{All, length, take, length-take_le}

module _ {ℓ} {A : Type ℓ} where
  -- `findFirst`, in the order of the list
  abbrev pub find : (A → Bool) → List A → Option A
  find p [] = none
  find p (x ∷ xs) = if p x then some x else find p xs

  -- `findMany`
  abbrev pub find_many : (A → Bool) → List A → List A
  find_many p [] = []
  find_many p (x ∷ xs) = let rest = find_many p xs in if p x then x ∷ rest else rest

  -- `count`
  abbrev pub count : (A → Bool) → List A → ℕ
  count p [] = 0
  count p (x ∷ xs) = (if p x then 1 else 0) + count p xs

  -- `updateMany`; its `count` is `count` of the same condition
  abbrev pub update_many : (A → Bool) → (A → A) → List A → List A
  update_many p f [] = []
  update_many p f (x ∷ xs) = (if p x then f x else x) ∷ update_many p f xs

  -- `deleteMany`
  abbrev pub delete_many : (A → Bool) → List A → List A
  delete_many p [] = []
  delete_many p (x ∷ xs) = let rest = delete_many p xs in if p x then rest else x ∷ rest

  -- `Array.some`
  abbrev pub any : (A → Bool) → List A → Bool
  any p [] = false
  any p (x ∷ xs) = if p x then true else any p xs

-- A property that an update keeps, row by row.
pub All-update_many {ℓ κ μ} :
    {A : Type ℓ} (P : A → Type κ) (Q : A → Type μ) (p : A → Bool) (f : A → A) (xs : List A)
    → ((x : A) → P x → Q (if p x then f x else x))
    → All P xs
    → All Q (update_many p f xs)
All-update_many P Q p f [] keep h = tt
All-update_many P Q p f (x ∷ xs) keep h = (keep x h.0, All-update_many P Q p f xs keep h.1)

-- What holds of every row holds of the one that is found.
pub All-find {ℓ κ} :
    {A : Type ℓ} (P : A → Type κ) (p : A → Bool) (xs : List A) {x : A}
    → All P xs
    → find p xs ≡ some x
    → P x
All-find P p [] h e = cc
All-find P p (y ∷ ys) {x} h e = elim (Bool-cases (p y)) [
  | inl hit ↦ let q : some y ≡ some x = rw hit at e in let same : y ≡ x = cc in subst P same h.0
  | inr miss ↦ All-find P p ys h.1 (rw miss at e)
]

-- The row that is found meets the condition.
pub find_holds {ℓ} :
    {A : Type ℓ} (p : A → Bool) (xs : List A) {x : A} → find p xs ≡ some x → p x ≡ true
find_holds p [] e = cc
find_holds p (y ∷ ys) {x} e = ground (arith, find_holds p ys {x = x})

-- An update that keeps a condition acts on the row that the condition finds.
pub find-update_many {ℓ} :
    {A : Type ℓ} (q p : A → Bool) (f : A → A) (xs : List A)
    → ((x : A) → q (f x) ≡ q x)
    → find q (update_many p f xs) ≡ Option.map (λ x. if p x then f x else x) (find q xs)
find-update_many q p f [] keep = refl
find-update_many q p f (x ∷ xs) keep = ground (arith, keep x, find-update_many q p f xs keep)

pub any-update_many {ℓ} :
    {A : Type ℓ} (q p : A → Bool) (f : A → A) (xs : List A)
    → ((x : A) → q (f x) ≡ q x)
    → any q (update_many p f xs) ≡ any q xs
any-update_many q p f [] keep = refl
any-update_many q p f (x ∷ xs) keep = ground (arith, keep x, any-update_many q p f xs keep)

-- Two properties of every row, together.
pub All-zip {ℓ κ μ} :
    {A : Type ℓ} (P : A → Type κ) (Q : A → Type μ) (xs : List A)
    → All P xs
    → All Q xs
    → All (λ x. P x × Q x) xs
All-zip P Q [] h k = tt
All-zip P Q (x ∷ xs) h k = ((h.0, k.0), All-zip P Q xs h.1 k.1)

module _ {ℓ κ μ} {A : Type ℓ} (P : A → Type κ) (Q : A → Type μ) where
  pub All-map : (xs : List A) → ((x : A) → P x → Q x) → All P xs → All Q xs
  All-map [] f h = tt
  All-map (x ∷ xs) f h = (f x h.0, All-map xs f h.1)

-- The rows that a condition selects have what all rows have, and meet it.
pub All-find_many {ℓ κ} :
    {A : Type ℓ} (P : A → Type κ) (q : A → Bool) (xs : List A)
    → All P xs
    → All (λ x. P x × (q x ≡ true)) (find_many q xs)
All-find_many P q [] h = tt
All-find_many P q (x ∷ xs) h = elim (Bool-cases (q x)) [
  | inl hit ↦ rw hit ((h.0, hit), All-find_many P q xs h.1)
  | inr miss ↦ rw miss (All-find_many P q xs h.1)
]

pub All-take {ℓ κ} :
    {A : Type ℓ} (P : A → Type κ) (n : ℕ) (xs : List A) → All P xs → All P (take n xs)
All-take P zero xs h = tt
All-take P (suc n) [] h = tt
All-take P (suc n) (x ∷ xs) h = (h.0, All-take P n xs h.1)

-- A prefix that is shorter than asked for is the whole list.
take_short {ℓ} : {A : Type ℓ} (n : ℕ) (xs : List A) → length (take n xs) < n → take n xs ≡ xs
take_short zero xs h = absurd (omega arith)
take_short (suc n) [] h = refl
take_short (suc n) (x ∷ xs) h = ap (◌∷◌ x) (take_short n xs (omega arith))

pub take_not_full {ℓ} :
    {A : Type ℓ} (n : ℕ) (xs : List A) → (length (take n xs) == n) ≡ false → take n xs ≡ xs
take_not_full n xs h = take_short n xs (ground (arith, length-take_le n xs))

-- ===== src/Prelude/Keys.antt =====
-- Tables whose rows have a primary key: look-ups, updates and deletions by key.
use Prim.Native.Nat.{ℕ, ◌+◌, ◌≤◌, ◌<◌}
use mathlib.Core.Path.{◌≡◌, refl, subst}
use mathlib.Core.Logic.{inl, inr}
use mathlib.Core.Bool.{Bool, true, false, ◌&&◌}
use mathlib.Core.Option
use mathlib.Core.Option.{Option, none, some}
use mathlib.Core.List.{List, [], ◌∷◌}
use native.Mathlib.Omega.{arith}
use fashion_ai_be.Prelude.Tests.{if◌then◌else◌, ◌==◌, Bool-cases}
use fashion_ai_be.Prelude.Lists.{All, sum_by}
use fashion_ai_be.Prelude.Rows.{All-map, All-zip, find, count, update_many, delete_many}

-- Rows with a primary key.
module _ {ℓ} {A : Type ℓ} (id : A → ℕ) where
  -- `findUnique({ where: { id: k } })`
  abbrev pub find_by : ℕ → List A → Option A
  find_by k = find (λ x. id x == k)

  -- No two rows have one key.
  abbrev pub Unique : List A → Type ℓ
  Unique [] = Unit
  Unique (x ∷ xs) = (find_by (id x) xs ≡ none) × Unique xs

  -- Every key lies below the next fresh one.
  abbrev pub Below : ℕ → List A → Type 0
  Below n = All (λ x. id x < n)

  -- An update that keeps the keys acts on the row that a key finds.
  pub find_by-update_many :
      (k : ℕ) (p : A → Bool) (f : A → A) (xs : List A)
      → ((x : A) → id (f x) ≡ id x)
      → find_by k (update_many p f xs) ≡ Option.map (λ x. if p x then f x else x) (find_by k xs)
  find_by-update_many k p f [] keep = refl
  find_by-update_many k p f (x ∷ xs) keep =
      ground (arith, keep x, find_by-update_many k p f xs keep)

  pub find_by-update_ne :
      (j k : ℕ) (p : A → Bool) (f : A → A) (xs : List A)
      → ((x : A) → id (f x) ≡ id x)
      → (k == j) ≡ false
      → find_by j (update_many (λ x. id x == k && p x) f xs) ≡ find_by j xs
  find_by-update_ne j k p f [] keep ne = refl
  find_by-update_ne j k p f (x ∷ xs) keep ne =
      ground (arith, keep x, find_by-update_ne j k p f xs keep ne)

  -- An update that meets no row of the key leaves it alone.
  pub find_by-update_same :
      (k : ℕ) (p : A → Bool) (f : A → A) (xs : List A)
      → ((x : A) → id (f x) ≡ id x)
      → ((x : A) → id x ≡ k → p x ≡ false)
      → find_by k (update_many p f xs) ≡ find_by k xs
  find_by-update_same k p f [] keep other = refl
  find_by-update_same k p f (x ∷ xs) keep other =
      ground (arith, keep x, other x, find_by-update_same k p f xs keep other)

  pub find_by_fresh : (n : ℕ) (xs : List A) → Below n xs → find_by n xs ≡ none
  find_by_fresh n [] h = refl
  find_by_fresh n (x ∷ xs) h = ground (arith, find_by_fresh n xs h.1)

  -- An update at one key that tests more than the key meets at most that row.
  count_by_missing :
      (k : ℕ) (q : A → Bool) (xs : List A)
      → find_by k xs ≡ none
      → count (λ x. id x == k && q x) xs ≡ 0
  count_by_missing k q [] h = refl
  count_by_missing k q (x ∷ xs) h = ground (arith, count_by_missing k q xs)

  pub count_by :
      (k : ℕ) (q : A → Bool) (xs : List A)
      → Unique xs
      → count (λ x. id x == k && q x) xs
        ≡ elim (find_by k xs) [ none ↦ 0 | some x ↦ if q x then 1 else 0 ]
  count_by k q [] u = refl
  count_by k q (x ∷ xs) u = ground (arith, count_by k q xs u.1, count_by_missing k q xs)

  -- The row that a condition finds is the one that its key finds.
  pub find_by-find :
      (p : A → Bool) (xs : List A) {r : A}
      → Unique xs
      → find p xs ≡ some r
      → find_by (id r) xs ≡ some r
  find_by-find p [] u h = cc
  find_by-find p (x ∷ xs) {r} u h = ground (arith, find_by-find p xs {r = r} u.1)

  count-delete_missing :
      (q : A → Bool) (k : ℕ) (xs : List A)
      → find_by k xs ≡ none
      → count q (delete_many (λ x. id x == k) xs) ≡ count q xs
  count-delete_missing q k [] h = refl
  count-delete_missing q k (x ∷ xs) h = ground (arith, count-delete_missing q k xs)

  -- Deleting the row of a key takes it out of every count that it is in.
  pub count-delete_by :
      (q : A → Bool) (k : ℕ) (r : A) (xs : List A)
      → Unique xs
      → find_by k xs ≡ some r
      → count q (delete_many (λ x. id x == k) xs) + (if q r then 1 else 0) ≡ count q xs
  count-delete_by q k r [] u h = cc
  count-delete_by q k r (x ∷ xs) u h =
      ground (arith, count-delete_by q k r xs u.1, count-delete_missing q k xs)

  find_by-delete_many :
      (j : ℕ) (p : A → Bool) (xs : List A)
      → find_by j xs ≡ none
      → find_by j (delete_many p xs) ≡ none
  find_by-delete_many j p [] h = refl
  find_by-delete_many j p (x ∷ xs) h = ground (arith, find_by-delete_many j p xs)

  pub Unique-delete_many : (p : A → Bool) (xs : List A) → Unique xs → Unique (delete_many p xs)
  Unique-delete_many p [] u = u
  Unique-delete_many p (x ∷ xs) u =
      ground (arith, Unique-delete_many p xs u.1, find_by-delete_many (id x) p xs u.0)

  pub Below-delete_many :
      (n : ℕ) (p : A → Bool) (xs : List A) → Below n xs → Below n (delete_many p xs)
  Below-delete_many n p [] h = h
  Below-delete_many n p (x ∷ xs) h = ground (arith, Below-delete_many n p xs h.1)

  pub Below-suc : (n : ℕ) (xs : List A) → Below n xs → Below (n + 1) xs
  Below-suc n [] h = h
  Below-suc n (x ∷ xs) h = (omega arith, Below-suc n xs h.1)

  pub Below-mono : (n m : ℕ) (xs : List A) → n ≤ m → Below n xs → Below m xs
  Below-mono n m [] le h = h
  Below-mono n m (x ∷ xs) le h = (omega arith, Below-mono n m xs le h.1)

  pub Unique-update_many :
      (p : A → Bool) (f : A → A) (xs : List A)
      → ((x : A) → id (f x) ≡ id x)
      → Unique xs
      → Unique (update_many p f xs)
  Unique-update_many p f [] keep u = u
  Unique-update_many p f (x ∷ xs) keep u = ground (
    arith,
    keep x,
    Unique-update_many p f xs keep u.1,
    find_by-update_many (id x) p f xs keep,
    find_by-update_many (id (f x)) p f xs keep,
  )

module _ {ℓ κ} {A : Type ℓ} (id : A → ℕ) (P : A → Type κ) (g : A → A) where
  All-update_missing :
      (k : ℕ) (xs : List A)
      → find_by id k xs ≡ none
      → All P xs
      → All P (update_many (λ x. id x == k) g xs)
  All-update_missing k [] e h = tt
  All-update_missing k (x ∷ xs) e h = elim (Bool-cases (id x == k)) [
    | inl hit ↦ absurd (ground (arith, rw hit at e))
    | inr miss ↦ rw miss (h.0, All-update_missing k xs (rw miss at e) h.1)
  ]

  -- Updating the row of a key keeps what every row has, where the new row has it.
  pub All-update_by :
      (k : ℕ) (xs : List A) {r : A}
      → Unique id xs
      → find_by id k xs ≡ some r
      → All P xs
      → P (g r)
      → All P (update_many (λ x. id x == k) g xs)
  All-update_by k [] u e h new = cc
  All-update_by k (x ∷ xs) {r} u e h new = elim (Bool-cases (id x == k)) [
    | inl hit ↦
        let q : some x ≡ some r = rw hit at e in
        let same : r ≡ x = cc in
        let at_key : id x ≡ k = ground (arith, hit) in
        rw hit (subst (λ y. P (g y)) same new, All-update_missing k xs (rw at_key at (u.0)) h.1)
    | inr miss ↦ rw miss (h.0, All-update_by k xs {r = r} u.1 (rw miss at e) h.1 new)
  ]

module _ {ℓ} {A : Type ℓ} (id : A → ℕ) where
  sum_by-update_missing :
      (f : A → ℕ) (g : A → A) (k : ℕ) (xs : List A)
      → find_by id k xs ≡ none
      → sum_by f (update_many (λ x. id x == k) g xs) ≡ sum_by f xs
  sum_by-update_missing f g k [] h = refl
  sum_by-update_missing f g k (x ∷ xs) h = ground (arith, sum_by-update_missing f g k xs)

  -- A condition at a key finds the row of the key, where that row meets it.
  pub find-key_and :
      (k : ℕ) (q : A → Bool) (xs : List A) {r : A}
      → find_by id k xs ≡ some r
      → q r ≡ true
      → Unique id xs
      → find (λ x. id x == k && q x) xs ≡ some r
  find-key_and k q [] f h u = cc
  find-key_and k q (x ∷ xs) {r} f h u = ground (arith, find-key_and k q xs {r = r})

  pub sum_by_member :
      (f : A → ℕ) (k : ℕ) (xs : List A) {r : A} → find_by id k xs ≡ some r → f r ≤ sum_by f xs
  sum_by_member f k [] h = cc
  sum_by_member f k (x ∷ xs) {r} h = ground (arith, sum_by_member f k xs {r = r})

  -- Updating the row of a key changes a sum over the rows by what changes at that row.
  pub sum_by-update_by :
      (f : A → ℕ) (g : A → A) (k : ℕ) (xs : List A) {r : A}
      → Unique id xs
      → find_by id k xs ≡ some r
      → sum_by f (update_many (λ x. id x == k) g xs) + f r ≡ sum_by f xs + f (g r)
  sum_by-update_by f g k [] u h = cc
  sum_by-update_by f g k (x ∷ xs) {r} u h =
      ground (arith, sum_by-update_by f g k xs {r = r} u.1, sum_by-update_missing f g k xs)

  not_key_of_missing :
      (k : ℕ) (r : A) (xs : List A) → find_by id k xs ≡ none → All (λ x. id x ≡ k → x ≡ r) xs
  not_key_of_missing k r [] h = tt
  not_key_of_missing k r (x ∷ xs) h = (λ e. ground arith, not_key_of_missing k r xs (ground arith))

  -- Under unique keys, a row with the key of the row found is that row.
  pub All-same_key :
      (k : ℕ) (r : A) (xs : List A)
      → Unique id xs
      → find_by id k xs ≡ some r
      → All (λ x. id x ≡ k → x ≡ r) xs
  All-same_key k r [] u f = tt
  All-same_key k r (x ∷ xs) u f = elim (Bool-cases (id x == k)) [
    | inl hit ↦
        let e : id x ≡ k = ground arith in
        (λ d. ground arith, not_key_of_missing k r xs (rw e at (u.0)))
    | inr miss ↦ (λ d. ground arith, All-same_key k r xs u.1 (rw miss at f))
  ]

  pub none_of_missing :
      (k : ℕ) (xs : List A) → find_by id k xs ≡ none → All (λ y. (id y == k) ≡ false) xs
  none_of_missing k [] h = tt
  none_of_missing k (x ∷ xs) h = (ground arith, none_of_missing k xs (ground arith))

  -- Under unique keys every row is found by its key.
  pub All-found : (xs : List A) → Unique id xs → All (λ x. find_by id (id x) xs ≡ some x) xs
  All-found [] u = tt
  All-found (x ∷ xs) u = (
    ground arith,
    All-map _ _ xs (λ y h. ground (arith, h.0, h.1))
        (All-zip (λ y. find_by id (id y) xs ≡ some y) (λ y. (id y == id x) ≡ false) xs
          (All-found xs u.1) (none_of_missing (id x) xs u.0)),
  )

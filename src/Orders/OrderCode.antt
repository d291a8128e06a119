-- ===== src/Orders/OrderCode.antt =====
-- The codes of new orders: src/common/utils/order-code.util.ts, over the codes that the unique column
-- `order_code` of the orders in prisma/schema.prisma holds.
use fashion_ai_be.Prelude.{
  ℕ, ◌+◌, ◌*◌, ◌%◌, ◌==◌, ◌<◌, ◌≡◌, refl, ◌↔◌, inl, inr, Bool, not, Option, none, some, List, [],
  ◌∷◌, arith, any, find, map, take, if◌then◌else◌, Bool-cases,
}

-- What one attempt draws: the clock in milliseconds and two digits at random.
pub record Draw : Type 0 where
  pub now : ℕ
  pub random : ℕ

-- `generateOrderCode`: the last six digits of the clock and the two at random, read as a number
unfoldable pub generate_order_code : Draw → ℕ
generate_order_code d = d.now % 1000000 * 100 + d.random

-- The outcome of `create` for one code: the order, a code that is taken, or another error.
pub data Attempt {ℓ} (A : Type ℓ) : Type ℓ where
  made : A → Attempt A
  code_taken : Attempt A
  refused : Attempt A

-- What the caller gets: the order, the error of `create`, or the conflict after the last attempt.
pub data Outcome {ℓ} (A : Type ℓ) : Type ℓ where
  created : A → Outcome A
  failed : Outcome A
  conflict : Outcome A

abbrev pub order_code_max_attempts : ℕ
order_code_max_attempts = 5

module _ {ℓ} {S A : Type ℓ} (create : ℕ → S → S × Attempt A) where
  unfoldable pub after_attempt : S × Attempt A → (S → S × Outcome A) → S × Outcome A
  after_attempt (s, made a) again = (s, created a)
  after_attempt (s, refused) again = (s, failed)
  after_attempt (s, code_taken) again = again s

  -- the loop, with what its attempts draw
  unfoldable pub attempt_each : List Draw → S → S × Outcome A
  unfolding after_attempt
  attempt_each [] s = (s, conflict)
  attempt_each (d ∷ ds) s =
      after_attempt (create (generate_order_code d) s) (λ s'. attempt_each ds s')

  -- `createWithUniqueOrderCode`
  unfoldable pub create_with_unique_order_code : List Draw → S → S × Outcome A
  unfolding attempt_each
  create_with_unique_order_code draws s = attempt_each (take order_code_max_attempts draws) s

-- the codes of the orders
abbrev pub is_taken : List ℕ → ℕ → Bool
is_taken codes code = any (λ c. c == code) codes

-- an insert under the unique index
unfoldable pub insert_code : ℕ → List ℕ → List ℕ × Attempt ℕ
insert_code code codes =
    if is_taken codes code then (codes, code_taken) else (code ∷ codes, made code)

-- What the first free code of the attempts leads to.
abbrev pub first_free : Option ℕ → List ℕ → List ℕ × Outcome ℕ
first_free none codes = (codes, conflict)
first_free (some code) codes = (code ∷ codes, created code)

attempts-first_free :
    (draws : List Draw) (codes : List ℕ)
    → attempt_each insert_code draws codes
      ≡ first_free (find (λ c. not (is_taken codes c)) (map generate_order_code draws)) codes
unfolding attempt_each insert_code
attempts-first_free [] codes = refl
attempts-first_free (d ∷ ds) codes = elim (Bool-cases (is_taken codes (generate_order_code d))) [
  | inl taken ↦ rw taken (attempts-first_free ds codes)
  | inr free ↦ rw free refl
]

-- An order is created with the first code, of the five that are drawn at most, that no order has; where
-- all five are taken nothing is written and the caller gets the conflict.
pub creates_first_free :
    (draws : List Draw) (codes : List ℕ)
    → create_with_unique_order_code insert_code draws codes
      ≡ first_free
          (find
            (λ c. not (is_taken codes c))
            (map generate_order_code (take order_code_max_attempts draws)))
          codes
unfolding create_with_unique_order_code
creates_first_free draws codes = attempts-first_free (take order_code_max_attempts draws) codes

-- A code has at most eight digits, and it has fewer exactly when the clock is in the first 100 of each
-- 1000 seconds.
pub order_code_digits :
    (d : Draw)
    → d.random < 100
    → (generate_order_code d < 100000000)
      × ((generate_order_code d < 10000000) ↔ (d.now % 1000000 < 100000))
unfolding generate_order_code
order_code_digits d two_digits =
    (omega (arith, two_digits), ((λ h. omega (arith, h)), (λ h. omega (arith, h, two_digits))))

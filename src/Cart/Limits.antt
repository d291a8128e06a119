-- ===== src/Cart/Limits.antt =====
-- What holds of the carts between two operations.
use fashion_ai_be.Prelude.{
  ℕ, ◌≤◌, ◌≡◌, refl, inl, inr, Bool, true, none, some, List, [], ◌∷◌, arith, All, find, count,
  update_many, delete_many, Bool-cases,
}
use fashion_ai_be.Cart.Items.{
  CartItem, CartLineKey, Shelf, cart_max_lines, cart_max_quantity, is_line, is_mine,
}

abbrev pub key_of : CartItem → CartLineKey
key_of i = record { product_id = i.product_id; color = i.color; combo_type = i.combo_type }

-- No two rows of one user are of one line.
abbrev pub Distinct : List CartItem → Type 0
Distinct [] = Unit
Distinct (x ∷ xs) = (find (is_line x.user_id (key_of x)) xs ≡ none) × Distinct xs

abbrev pub IsOrderable : CartItem → Type 0
IsOrderable i = (1 ≤ i.quantity) × (i.quantity ≤ cart_max_quantity)

pub record IsCart (db : Shelf) : Type 0 where
  pub distinct : Distinct db.items
  pub orderable : All IsOrderable db.items
  pub short : (user_id : ℕ) → count (is_mine user_id) db.items ≤ cart_max_lines

-- An update that keeps what a row is a line of.
abbrev pub Keeps : (CartItem → CartItem) → Type 0
Keeps f =
    (i : CartItem)
    → ((f i).user_id ≡ i.user_id)
      × ((f i).product_id ≡ i.product_id)
      × ((f i).color ≡ i.color)
      × ((f i).combo_type ≡ i.combo_type)

pub count-update :
    (user_id : ℕ) (p : CartItem → Bool) (f : CartItem → CartItem) (xs : List CartItem)
    → Keeps f
    → count (is_mine user_id) (update_many p f xs) ≡ count (is_mine user_id) xs
count-update user_id p f [] keep = refl
count-update user_id p f (x ∷ xs) keep = ground (arith, keep x, count-update user_id p f xs keep)

find-update :
    (user_id : ℕ) (line : CartLineKey) (p : CartItem → Bool) (f : CartItem → CartItem)
    (xs : List CartItem)
    → Keeps f
    → find (is_line user_id line) xs ≡ none
    → find (is_line user_id line) (update_many p f xs) ≡ none
find-update user_id line p f [] keep h = refl
find-update user_id line p f (x ∷ xs) keep h =
    ground (arith, keep x, find-update user_id line p f xs keep)

pub update-Distinct :
    (p : CartItem → Bool) (f : CartItem → CartItem) (xs : List CartItem)
    → Keeps f
    → Distinct xs
    → Distinct (update_many p f xs)
update-Distinct p f [] keep h = tt
update-Distinct p f (x ∷ xs) keep h = ground (
  arith,
  keep x,
  update-Distinct p f xs keep h.1,
  find-update x.user_id (key_of x) p f xs keep h.0,
)

find-delete :
    (q p : CartItem → Bool) (xs : List CartItem)
    → find q xs ≡ none
    → find q (delete_many p xs) ≡ none
find-delete q p [] h = refl
find-delete q p (x ∷ xs) h = ground (arith, find-delete q p xs)

pub delete-Distinct :
    (p : CartItem → Bool) (xs : List CartItem) → Distinct xs → Distinct (delete_many p xs)
delete-Distinct p [] h = tt
delete-Distinct p (x ∷ xs) h =
    ground (arith, delete-Distinct p xs h.1, find-delete (is_line x.user_id (key_of x)) p xs h.0)

pub count-delete :
    (q p : CartItem → Bool) (xs : List CartItem) → count q (delete_many p xs) ≤ count q xs
count-delete q p [] = omega arith
count-delete q p (x ∷ xs) = ground (arith, count-delete q p xs)

delete-All {κ} :
    (P : CartItem → Type κ) (p : CartItem → Bool) (xs : List CartItem)
    → All P xs
    → All P (delete_many p xs)
delete-All P p [] h = tt
delete-All P p (x ∷ xs) h = elim (Bool-cases (p x)) [
  | inl gone ↦ rw gone (delete-All P p xs h.1)
  | inr kept ↦ rw kept (h.0, delete-All P p xs h.1)
]

pub update-IsCart :
    (p : CartItem → Bool) (f : CartItem → CartItem) (db : Shelf)
    → Keeps f
    → All IsOrderable (update_many p f db.items)
    → IsCart db
    → IsCart (record db { items = update_many p f db.items })
update-IsCart p f db keep good h = record {
  distinct = update-Distinct p f db.items keep h.distinct;
  orderable = good;
  short = λ user_id. rw (count-update user_id p f db.items keep) (h.short user_id);
}

pub delete-IsCart :
    (p : CartItem → Bool) (db : Shelf)
    → IsCart db
    → IsCart (record db { items = delete_many p db.items })
delete-IsCart p db h = record {
  distinct = delete-Distinct p db.items h.distinct;
  orderable = delete-All IsOrderable p db.items h.orderable;
  short = λ user_id. ground (arith, count-delete (is_mine user_id) p db.items, h.short user_id);
}

no_such_line :
    (user_id : ℕ) (line : CartLineKey) (r : CartItem) (xs : List CartItem)
    → find (is_line user_id line) xs ≡ none
    → All (λ x. is_line user_id line x ≡ true → x ≡ r) xs
no_such_line user_id line r [] h = tt
no_such_line user_id line r (x ∷ xs) h =
    (λ e. ground arith, no_such_line user_id line r xs (ground arith))

-- Under distinct lines, a row of the line of the row found is that row.
pub same_line :
    (user_id : ℕ) (line : CartLineKey) (r : CartItem) (xs : List CartItem)
    → Distinct xs
    → find (is_line user_id line) xs ≡ some r
    → All (λ x. is_line user_id line x ≡ true → x ≡ r) xs
same_line user_id line r [] h f = tt
same_line user_id line r (x ∷ xs) h f = elim (Bool-cases (is_line user_id line x)) [
  | inl hit ↦
      let e₁ : x.user_id ≡ user_id = ground arith in
      let e₂ : x.product_id ≡ line.product_id = ground arith in
      let e₃ : x.color ≡ line.color = ground arith in
      let e₄ : x.combo_type ≡ line.combo_type = ground arith in
      (λ e. ground arith, no_such_line user_id line r xs (rw (e₁, e₂, e₃, e₄) at (h.0)))
  | inr miss ↦ (λ e. ground arith, same_line user_id line r xs h.1 (rw miss at f))
]

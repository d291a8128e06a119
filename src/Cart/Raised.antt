-- ===== src/Cart/Raised.antt =====
-- What the two writes of `merge` leave: the lines that are there, and their quantities.
use fashion_ai_be.Prelude.{
  ℕ, ◌≤◌, ◌≡◌, refl, ◌∙◌, ap, inl, inr, ltb, leb, Bool, true, false, ◌&&◌, ◌||◌, List, [], ◌∷◌,
  arith, All, All-map, All-update_many, any, any-update_many, count, update_many, if◌then◌else◌,
  Bool-cases,
}
use fashion_ai_be.Cart.Items.{CartItem, CartLineKey, Shelf, is_line, is_mine, with_quantity}
use fashion_ai_be.Cart.Limits.{count-update}
use fashion_ai_be.Cart.Purchased.{CartLine}
use fashion_ai_be.Cart.Merge.{pick_key, same_key, has_line, create_lines, raise_lines}
use fashion_ai_be.Cart.Accepted.{is_key}
use fashion_ai_be.Cart.Created.{create_there, create_missing, with_line}

module _ (user_id : ℕ) where
  has-same :
      (a b : CartLineKey) (items : List CartItem)
      → same_key a b ≡ true
      → has_line user_id a items ≡ has_line user_id b items
  has-same a b [] h = refl
  has-same a b (i ∷ is) h = ground (arith, has-same a b is h)

  -- A line is there after the creation where it was before or was created.
  pub has-create :
      (k : CartLineKey) (acc : List CartLine) (db : Shelf)
      → has_line user_id k (create_lines user_id acc db).items
        ≡ (has_line user_id k db.items || any (is_key k) acc)
  unfolding create_lines
  has-create k [] db = ground arith
  has-create k (l ∷ acc) db = elim (Bool-cases (has_line user_id (pick_key l) db.items)) [
    | inl there ↦
        ap (λ (d : Shelf). has_line user_id k d.items) (create_there user_id l acc db there)
        ∙ has-create k acc db
        ∙ ground (arith, there, has-same (pick_key l) k db.items)
    | inr missing ↦
        ap (λ (d : Shelf). has_line user_id k d.items) (create_missing user_id l acc db missing)
        ∙ has-create k acc (with_line user_id l acc db)
        ∙ ground arith
  ]

  pub has-raise :
      (k : CartLineKey) (acc : List CartLine) (items : List CartItem)
      → has_line user_id k (raise_lines user_id acc items) ≡ has_line user_id k items
  unfolding raise_lines
  has-raise k [] items = refl
  has-raise k (l ∷ acc) items =
      has-raise k acc _
      ∙ any-update_many (is_line user_id k) _ (with_quantity l.quantity) items (λ i. refl)

  pub count-raise :
      (acc : List CartLine) (items : List CartItem)
      → count (is_mine user_id) (raise_lines user_id acc items) ≡ count (is_mine user_id) items
  unfolding raise_lines
  count-raise [] items = refl
  count-raise (l ∷ acc) items =
      count-raise acc _
      ∙ count-update user_id _ (with_quantity l.quantity) items (λ i. (refl, refl, refl, refl))

  -- The rows of a line hold no less than it asks for.
  abbrev pub Holds : CartLine → CartItem → Type 0
  Holds l i = is_line user_id (pick_key l) i ≡ true → l.quantity ≤ i.quantity

  raise_keeps :
      (l : CartLine) (acc : List CartLine) (items : List CartItem)
      → All (Holds l) items
      → All (Holds l) (raise_lines user_id acc items)
  unfolding raise_lines
  raise_keeps l [] items h = h
  raise_keeps l (x ∷ acc) items h = raise_keeps l acc _ (
      All-update_many (Holds l) (Holds l) _ (with_quantity x.quantity) items
        (λ i f. ground (arith, f)) h)

  raised_row :
      (l x : CartLine) (i : CartItem)
      → (is_key (pick_key l) x && leb l.quantity x.quantity) ≡ true
      → Holds l (
          if is_line user_id (pick_key x) i && ltb i.quantity x.quantity
          then with_quantity x.quantity i
          else i)
  raised_row l x i h = ground arith

  pub raise-Holds :
      (l : CartLine) (acc : List CartLine) (items : List CartItem)
      → any (λ x. is_key (pick_key l) x && leb l.quantity x.quantity) acc ≡ true
      → All (Holds l) (raise_lines user_id acc items)
  unfolding raise_lines
  raise-Holds l [] items h = cc
  raise-Holds l (x ∷ acc) items h =
      elim (Bool-cases (is_key (pick_key l) x && leb l.quantity x.quantity)) [
        | inl here ↦ raise_keeps l acc _ (
            All-update_many (λ (i : CartItem). i.id ≡ i.id) (Holds l) _ (with_quantity x.quantity)
              items (λ i f. raised_row l x i here) (trivial items))
        | inr later ↦ raise-Holds l acc _ (rw later at h)
      ]
    where
      trivial : (is : List CartItem) → All (λ (i : CartItem). i.id ≡ i.id) is
      trivial [] = tt
      trivial (i ∷ is) = (refl, trivial is)

  pub missing-Holds :
      (l : CartLine) (items : List CartItem)
      → has_line user_id (pick_key l) items ≡ false
      → All (Holds l) items
  missing-Holds l [] h = tt
  missing-Holds l (i ∷ is) h = (λ e. ground arith, missing-Holds l is (ground arith))

  -- What is held already is not raised, and what is there is not created.
  update_none :
      (p : CartItem → Bool) (f : CartItem → CartItem) (items : List CartItem)
      → All (λ i. p i ≡ false) items
      → update_many p f items ≡ items
  update_none p f [] h = refl
  update_none p f (i ∷ is) h = ground (arith, h.0, update_none p f is h.1)

  pub raise_nothing :
      (acc : List CartLine) (items : List CartItem)
      → All (λ l. All (Holds l) items) acc
      → raise_lines user_id acc items ≡ items
  unfolding raise_lines
  raise_nothing [] items h = refl
  raise_nothing (l ∷ acc) items h =
      ap (raise_lines user_id acc) (
        update_none _ (with_quantity l.quantity) items
          (All-map (Holds l) _ items (λ i f. ground (arith, f)) h.0))
      ∙ raise_nothing acc items h.1

  pub create_nothing :
      (acc : List CartLine) (db : Shelf)
      → All (λ l. has_line user_id (pick_key l) db.items ≡ true) acc
      → create_lines user_id acc db ≡ db
  unfolding create_lines
  create_nothing [] db h = refl
  create_nothing (l ∷ acc) db h = create_there user_id l acc db h.0 ∙ create_nothing acc db h.1

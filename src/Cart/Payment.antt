-- ===== src/Cart/Payment.antt =====
-- What a payment leaves in the carts.
use fashion_ai_be.Prelude.{
  ℕ, ◌==◌, ◌≡◌, refl, ◌∙◌, inl, inr, Bool, not, List, [], ◌∷◌, map, arith, find_many, update_many,
  delete_many, Bool-cases,
}
use fashion_ai_be.Cart.Items.{Texts, CartItem, Shelf, is_mine}
use fashion_ai_be.Cart.Purchased.{
  PurchasedItem, CartLine, to_line, sort_lines, is_bought, less_bought, take_bought, is_used_up,
  remove_purchased_items,
}

-- The rows of the other users.
abbrev pub others : ℕ → List CartItem → List CartItem
others user_id = find_many (λ i. not (is_mine user_id i))

update-others :
    (texts : Texts) (user_id : ℕ) (l : CartLine) (xs : List CartItem)
    → others user_id (update_many (is_bought texts user_id l) (less_bought l) xs)
      ≡ others user_id xs
update-others texts user_id l [] = refl
update-others texts user_id l (x ∷ xs) = ground (arith, update-others texts user_id l xs)

delete-others :
    (user_id : ℕ) (xs : List CartItem)
    → others user_id (delete_many (is_used_up user_id) xs) ≡ others user_id xs
delete-others user_id [] = refl
delete-others user_id (x ∷ xs) = ground (arith, delete-others user_id xs)

take_bought-others :
    (texts : Texts) (user_id : ℕ) (ls : List CartLine) (n : ℕ) (xs : List CartItem)
    → others user_id (take_bought texts user_id ls n xs).0 ≡ others user_id xs
unfolding take_bought
take_bought-others texts user_id [] n xs = refl
take_bought-others texts user_id (l ∷ ls) n xs =
    take_bought-others texts user_id ls _ _ ∙ update-others texts user_id l xs

-- A payment of one user leaves the rows of all other users as they are, in their order.
remove_purchased_items-others :
    (texts : Texts) (comes_before : CartLine → CartLine → Bool) (user_id : ℕ)
    (bought : List PurchasedItem) (db : Shelf)
    → others user_id (remove_purchased_items texts comes_before user_id bought db).0.items
      ≡ others user_id db.items
unfolding remove_purchased_items
remove_purchased_items-others texts comes_before user_id bought db =
    let r =
      take_bought texts user_id (sort_lines comes_before (map (to_line texts) bought)) 0 db.items in
    let kept =
      take_bought-others texts user_id (sort_lines comes_before (map (to_line texts) bought)) 0
        db.items in
    elim (Bool-cases (r.1 == 0)) [
      | inl unmatched ↦ rw unmatched kept
      | inr matched ↦ rw matched (delete-others user_id r.0 ∙ kept)
    ]

-- ===== src/Cart/Cleared.antt =====
-- Carts stay orderable when what was paid for leaves them.
use fashion_ai_be.Prelude.{
  ℕ, ◌+◌, ◌≤◌, ◌==◌, ◌≡◌, refl, ◌∙◌, ◌⊎◌, inl, inr, Bool, true, List, [], ◌∷◌, map, arith, All,
  All-update_many, All-map, count, update_many, delete_many, if◌then◌else◌, Bool-cases,
}
use fashion_ai_be.Cart.Items.{Texts, CartItem, Shelf, cart_max_quantity, is_mine}
use fashion_ai_be.Cart.Limits.{
  IsCart, IsOrderable, Distinct, Keeps, update-Distinct, delete-Distinct, count-update,
  count-delete,
}
use fashion_ai_be.Cart.Purchased.{
  PurchasedItem, CartLine, to_line, sort_lines, is_bought, less_bought, take_bought, is_used_up,
  remove_purchased_items,
}

-- Only rows of the user may be used up.
abbrev Reduced : ℕ → CartItem → Type 0
Reduced user_id i =
    (i.quantity ≤ cart_max_quantity) × ((1 ≤ i.quantity) ⊎ (is_mine user_id i ≡ true))

reduce-Reduced :
    (texts : Texts) (user_id : ℕ) (l : CartLine) (i : CartItem)
    → Reduced user_id i
    → Reduced user_id (if is_bought texts user_id l i then less_bought l i else i)
reduce-Reduced texts user_id l i h = ground arith

-- What holds of the rows while the lines are taken off.
record Taking (user_id : ℕ) (items items' : List CartItem) : Type 0 where
  distinct : Distinct items'
  reduced : All (Reduced user_id) items'
  same_count : (k : ℕ) → count (is_mine k) items' ≡ count (is_mine k) items

take_bought-Taking :
    (texts : Texts) (user_id : ℕ) (ls : List CartLine) (n : ℕ) (items xs : List CartItem)
    → Taking user_id items xs
    → Taking user_id items (take_bought texts user_id ls n xs).0
unfolding take_bought
take_bought-Taking texts user_id [] n items xs h = h
take_bought-Taking texts user_id (l ∷ ls) n items xs h =
    let keep : Keeps (less_bought l) = λ i. (refl, refl, refl, refl) in
    take_bought-Taking texts user_id ls _ items _ (record {
      distinct = update-Distinct (is_bought texts user_id l) (less_bought l) xs keep h.distinct;
      reduced =
          All-update_many (Reduced user_id) (Reduced user_id) (is_bought texts user_id l)
            (less_bought l) xs (reduce-Reduced texts user_id l) h.reduced;
      same_count =
          λ k. count-update k (is_bought texts user_id l) (less_bought l) xs keep ∙ h.same_count k;
    })

unmatched-update :
    (p : CartItem → Bool) (f : CartItem → CartItem) (xs : List CartItem)
    → count p xs ≡ 0
    → update_many p f xs ≡ xs
unmatched-update p f [] h = refl
unmatched-update p f (x ∷ xs) h = ground (arith, unmatched-update p f xs)

matched_grows :
    (texts : Texts) (user_id : ℕ) (ls : List CartLine) (n : ℕ) (xs : List CartItem)
    → n ≤ (take_bought texts user_id ls n xs).1
unfolding take_bought
matched_grows texts user_id [] n xs = omega arith
matched_grows texts user_id (l ∷ ls) n xs =
    let more =
      matched_grows texts user_id ls (n + count (is_bought texts user_id l) xs)
        (update_many (is_bought texts user_id l) (less_bought l) xs) in
    omega arith

-- Lines that match no row change none.
take_bought-unmatched :
    (texts : Texts) (user_id : ℕ) (ls : List CartLine) (n : ℕ) (xs : List CartItem)
    → (take_bought texts user_id ls n xs).1 ≡ 0
    → (take_bought texts user_id ls n xs).0 ≡ xs
unfolding take_bought
take_bought-unmatched texts user_id [] n xs h = refl
take_bought-unmatched texts user_id (l ∷ ls) n xs h =
    let bought = is_bought texts user_id l in
    let after = update_many bought (less_bought l) xs in
    let none_matched : count bought xs ≡ 0 =
      ground (arith, matched_grows texts user_id ls (n + count bought xs) after, h) in
    take_bought-unmatched texts user_id ls (n + count bought xs) after h
    ∙ unmatched-update bought (less_bought l) xs none_matched

used_up-All :
    (user_id : ℕ) (xs : List CartItem)
    → All (Reduced user_id) xs
    → All IsOrderable (delete_many (is_used_up user_id) xs)
used_up-All user_id [] h = tt
used_up-All user_id (x ∷ xs) h = elim (Bool-cases (is_used_up user_id x)) [
  | inl gone ↦ rw gone (used_up-All user_id xs h.1)
  | inr kept ↦ rw kept (ground (arith, h.0), used_up-All user_id xs h.1)
]

-- A payment keeps every cart orderable, whatever was bought: rows that are used up are gone, and no
-- other quantity is above or below the bounds.
pub remove_purchased_items-IsCart :
    (texts : Texts) (comes_before : CartLine → CartLine → Bool) (user_id : ℕ)
    (bought : List PurchasedItem) (db : Shelf)
    → IsCart db
    → IsCart (remove_purchased_items texts comes_before user_id bought db).0
unfolding remove_purchased_items
remove_purchased_items-IsCart texts comes_before user_id bought db h =
    let ls = sort_lines comes_before (map (to_line texts) bought) in
    let r = take_bought texts user_id ls 0 db.items in
    let taking : Taking user_id db.items r.0 =
      take_bought-Taking texts user_id ls 0 db.items db.items (record {
        distinct = h.distinct;
        reduced =
            All-map IsOrderable (Reduced user_id) db.items (λ i good. (good.1, inl good.0))
              h.orderable;
        same_count = λ k. refl;
      }) in
    elim (Bool-cases (r.1 == 0)) [
      | inl unmatched ↦
          let same_rows : r.0 ≡ db.items =
            take_bought-unmatched texts user_id ls 0 db.items (ground arith) in
          rw unmatched (record {
            distinct = taking.distinct;
            orderable = rw same_rows h.orderable;
            short = λ k. rw (taking.same_count k) (h.short k);
          })
      | inr matched ↦ rw matched (record {
        distinct = delete-Distinct (is_used_up user_id) r.0 taking.distinct;
        orderable = used_up-All user_id r.0 taking.reduced;
        short = λ k. ground (
          arith,
          count-delete (is_mine k) (is_used_up user_id) r.0,
          taking.same_count k,
          h.short k,
        );
      })
    ]

-- ===== src/Cart/Purchased.antt =====
-- `removePurchasedItems` of src/modules/cart/cart.service.ts: what was paid for leaves the cart. The
-- order in which the lines are written is `comes_before`, the order of the source's line ids.
use fashion_ai_be.Prelude.{
  ℕ, ◌+◌, ◌-◌, ◌==◌, leb, Bool, true, false, ◌&&◌, Option, List, [], ◌∷◌, map, count, update_many,
  delete_many, if◌then◌else◌,
}
use fashion_ai_be.Cart.Items.{
  Texts, CartItem, Shelf, is_mine, with_quantity, text_or_empty, trimmed_or_empty,
}

-- `PurchasedItem`
pub record PurchasedItem : Type 0 where
  pub product_id : ℕ
  pub quantity : ℕ
  pub color : Option ℕ
  pub combo_type : Option ℕ

-- `CartLine`
pub record CartLine : Type 0 where
  pub product_id : ℕ
  pub color : ℕ
  pub combo_type : ℕ
  pub quantity : ℕ

abbrev pub to_line : Texts → PurchasedItem → CartLine
to_line texts i = record {
  product_id = i.product_id;
  color = trimmed_or_empty texts i.color;
  combo_type = text_or_empty i.combo_type;
  quantity = i.quantity;
}

-- `sortLines`, as an insertion sort
abbrev pub insert_line : (CartLine → CartLine → Bool) → CartLine → List CartLine → List CartLine
insert_line comes_before l [] = l ∷ []
insert_line comes_before l (x ∷ xs) =
    let rest = insert_line comes_before l xs in if comes_before x l then x ∷ rest else l ∷ x ∷ xs

abbrev pub sort_lines : (CartLine → CartLine → Bool) → List CartLine → List CartLine
sort_lines comes_before [] = []
sort_lines comes_before (l ∷ ls) = insert_line comes_before l (sort_lines comes_before ls)

-- the condition of one update; colours are compared without regard to case
abbrev pub is_bought : Texts → ℕ → CartLine → CartItem → Bool
is_bought texts user_id line i =
    i.user_id == user_id
    && i.product_id == line.product_id
    && texts.to_lower_case i.color == texts.to_lower_case line.color
    && i.combo_type == line.combo_type

-- `decrement`: ℕ-subtraction stops at 0, where the source goes below and deletes the row just the same
abbrev pub less_bought : CartLine → CartItem → CartItem
less_bought line i = with_quantity (i.quantity - line.quantity) i

-- the loop over the lines, with the number of rows that matched
unfoldable pub take_bought : Texts → ℕ → List CartLine → ℕ → List CartItem → List CartItem × ℕ
take_bought texts user_id [] matched items = (items, matched)
take_bought texts user_id (l ∷ ls) matched items =
    take_bought texts user_id ls (matched + count (is_bought texts user_id l) items)
      (update_many (is_bought texts user_id l) (less_bought l) items)

abbrev pub is_used_up : ℕ → CartItem → Bool
is_used_up user_id i = is_mine user_id i && leb i.quantity 0

-- `removePurchasedItems`, and whether the cart changed
unfoldable pub remove_purchased_items :
    Texts → (CartLine → CartLine → Bool) → ℕ → List PurchasedItem → Shelf → Shelf × Bool
remove_purchased_items texts comes_before user_id bought db =
    let (items, matched) =
      take_bought texts user_id (sort_lines comes_before (map (to_line texts) bought)) 0 db.items in
    if matched == 0
    then (record db { items = items }, false)
    else (record db { items = delete_many (is_used_up user_id) items }, true)

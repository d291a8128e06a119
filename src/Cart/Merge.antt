-- ===== src/Cart/Merge.antt =====
-- `merge` of src/modules/cart/cart.service.ts: the cart that a guest kept on the device joins the one
-- on the server. `comes_before` is the order of the source's line ids. The map of the incoming lines
-- is a list with one line for each id, in the order of their first entry.
use fashion_ai_be.Prelude.{
  ℕ, ◌+◌, ◌-◌, ◌==◌, max, ltb, Bool, ◌&&◌, Option, none, some, List, [], ◌∷◌, any, find, count,
  ◌++◌, update_many, if◌then◌else◌,
}
use fashion_ai_be.Cart.Items.{
  Texts, Product, CartItem, CartLineKey, AddCartItemDto, Shelf, to_line_key, resolve_product_color,
  cart_max_lines, is_line, is_mine, with_quantity,
}
use fashion_ai_be.Cart.Purchased.{CartLine, sort_lines}

pub data MergeSkipReason : Type 0 where
  product_unavailable invalid_color line_limit : MergeSkipReason

-- A line that is not taken over, and why.
pub record Skipped : Type 0 where
  pub line : CartLineKey
  pub reason : MergeSkipReason

-- `pickKey`
abbrev pub pick_key : CartLine → CartLineKey
pick_key l = record { product_id = l.product_id; color = l.color; combo_type = l.combo_type }

abbrev pub same_key : CartLineKey → CartLineKey → Bool
same_key a b = a.product_id == b.product_id && a.color == b.color && a.combo_type == b.combo_type

-- `incoming.set`, with the larger of the two quantities
unfoldable pub put_incoming : CartLineKey → ℕ → List CartLine → List CartLine
put_incoming k q [] =
    record { product_id = k.product_id; color = k.color; combo_type = k.combo_type; quantity = q }
    ∷ []
put_incoming k q (l ∷ ls) =
    let rest = put_incoming k q ls in
    if same_key (pick_key l) k then record l { quantity = max l.quantity q } ∷ ls else l ∷ rest

-- the variables of the loop over the items
pub record Incoming : Type 0 where
  pub lines : List CartLine
  pub skipped : List Skipped

unfoldable pub color_for : Texts → Product → ℕ → Option ℕ
color_for texts product color =
    if color == 0 then some 0 else resolve_product_color texts product.colors color

unfoldable pub collect_colored : Option ℕ → CartLineKey → ℕ → Incoming → Incoming
collect_colored none line quantity inc = record inc {
  skipped = inc.skipped ++ record { line = line; reason = invalid_color } ∷ [];
}
collect_colored (some color) line quantity inc = record inc {
  lines = put_incoming (record line { color = color }) quantity inc.lines;
}

unfoldable pub collect_found : Option Product → Texts → CartLineKey → ℕ → Incoming → Incoming
unfolding collect_colored
collect_found none texts line quantity inc = record inc {
  skipped = inc.skipped ++ record { line = line; reason = product_unavailable } ∷ [];
}
collect_found (some product) texts line quantity inc =
    collect_colored (color_for texts product line.color) line quantity inc

-- the loop over the items
unfoldable pub collect : Texts → List Product → List AddCartItemDto → Incoming → Incoming
unfolding collect_found
collect texts products [] inc = inc
collect texts products (i ∷ is) inc =
    let line = to_line_key texts i in
    collect texts products is (
      collect_found (find (λ p. p.id == line.product_id && p.is_active) products) texts line
        i.quantity inc)

abbrev pub has_line : ℕ → CartLineKey → List CartItem → Bool
has_line user_id k items = any (is_line user_id k) items

-- `purchasable.filter`, with the lines of the cart that were there and how many more it takes
unfoldable pub accept : (CartLineKey → Bool) → ℕ → List CartLine → List CartLine
accept there free [] = []
accept there free (l ∷ ls) =
    let known = accept there free ls in
    let fresh = accept there (free - 1) ls in
    if there (pick_key l) then l ∷ known else if ltb 0 free then l ∷ fresh else known

-- the lines that the filter drops, which are skipped
unfoldable pub refuse : (CartLineKey → Bool) → ℕ → List CartLine → List Skipped
refuse there free [] = []
refuse there free (l ∷ ls) =
    let known = refuse there free ls in
    let fresh = refuse there (free - 1) ls in
    if there (pick_key l)
    then known
    else if ltb 0 free
    then fresh
    else record { line = pick_key l; reason = line_limit } ∷ known

-- `createMany` with `skipDuplicates`
unfoldable pub create_lines : ℕ → List CartLine → Shelf → Shelf
create_lines user_id [] db = db
create_lines user_id (l ∷ ls) db =
    let item : CartItem = record {
      id = db.next_id;
      user_id = user_id;
      product_id = l.product_id;
      color = l.color;
      combo_type = l.combo_type;
      quantity = l.quantity;
    } in
    create_lines user_id ls (
      if has_line user_id (pick_key l) db.items
      then db
      else record db { items = item ∷ db.items; next_id = db.next_id + 1 })

-- the updates that raise a quantity
unfoldable pub raise_lines : ℕ → List CartLine → List CartItem → List CartItem
raise_lines user_id [] items = items
raise_lines user_id (l ∷ ls) items = raise_lines user_id ls (
    update_many (λ i. is_line user_id (pick_key l) i && ltb i.quantity l.quantity)
      (with_quantity l.quantity) items)

unfoldable pub merge_lines : ℕ → List CartLine → Shelf → Shelf
merge_lines user_id purchasable db =
    let there : CartLineKey → Bool = λ k. has_line user_id k db.items in
    let free = cart_max_lines - count (is_mine user_id) db.items in
    let accepted = accept there free purchasable in
    let created = create_lines user_id accepted db in
    record created { items = raise_lines user_id accepted created.items }

abbrev pub no_lines : Incoming
no_lines = record { lines = []; skipped = [] }

-- `merge`, with the lines that it skipped
unfoldable pub merge :
    Texts → (CartLine → CartLine → Bool) → ℕ → List AddCartItemDto → Shelf → Shelf × List Skipped
merge texts comes_before user_id items db =
    let inc = collect texts db.products items no_lines in
    let purchasable = sort_lines comes_before inc.lines in
    let there : CartLineKey → Bool = λ k. has_line user_id k db.items in
    let free = cart_max_lines - count (is_mine user_id) db.items in
    (merge_lines user_id purchasable db, inc.skipped ++ refuse there free purchasable)

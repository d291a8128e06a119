-- ===== src/Cart/Items.antt =====
-- The cart of a user: src/modules/cart/cart.service.ts and src/common/utils/product-color.util.ts. A
-- text is a number, 0 the empty one; `Texts` are the methods of strings that the code calls. The
-- messages to other devices and the answer are left out.
use fashion_ai_be.Prelude.{
  ℕ, ◌+◌, ◌==◌, ltb, leb, Bool, true, false, not, ◌&&◌, Option, none, some, List, [], ◌∷◌, find,
  count, update_many, delete_many, if◌then◌else◌,
}
use fashion_ai_be.Orders.Tx.{HttpError, Result, ok, err}

-- `trim` and `toLowerCase`
pub record Texts : Type 0 where
  pub trim : ℕ → ℕ
  pub to_lower_case : ℕ → ℕ

pub record Product : Type 0 where
  pub id : ℕ
  pub is_active : Bool
  pub colors : List ℕ

pub record CartItem : Type 0 where
  pub id : ℕ
  pub user_id : ℕ
  pub product_id : ℕ
  pub color : ℕ
  pub combo_type : ℕ
  pub quantity : ℕ

-- `CartLineKey`
pub record CartLineKey : Type 0 where
  pub product_id : ℕ
  pub color : ℕ
  pub combo_type : ℕ

pub record Shelf : Type 0 where
  pub products : List Product
  pub items : List CartItem
  pub next_id : ℕ

abbrev pub cart_max_lines : ℕ
cart_max_lines = 50

abbrev pub cart_max_quantity : ℕ
cart_max_quantity = 1000

-- `AddCartItemDto`, `PurchasedItem`
pub record AddCartItemDto : Type 0 where
  pub product_id : ℕ
  pub color : Option ℕ
  pub combo_type : Option ℕ
  pub quantity : ℕ

abbrev pub text_or_empty : Option ℕ → ℕ
text_or_empty none = 0
text_or_empty (some t) = t

abbrev pub trimmed_or_empty : Texts → Option ℕ → ℕ
trimmed_or_empty texts none = 0
trimmed_or_empty texts (some t) = texts.trim t

-- `toLineKey`
abbrev pub to_line_key : Texts → AddCartItemDto → CartLineKey
to_line_key texts dto = record {
  product_id = dto.product_id;
  color = trimmed_or_empty texts dto.color;
  combo_type = text_or_empty dto.combo_type;
}

-- `resolveProductColor`
unfoldable pub resolve_product_color : Texts → List ℕ → ℕ → Option ℕ
resolve_product_color texts [] color = some (texts.trim color)
resolve_product_color texts (c ∷ cs) color =
    elim (find
      (λ name. texts.to_lower_case (texts.trim name) == texts.to_lower_case (texts.trim color))
      (c ∷ cs)) [ none ↦ none | some name ↦ some (texts.trim name) ]

color_resolved : Option ℕ → CartLineKey → Result CartLineKey
color_resolved none line = err HttpError.bad_request
color_resolved (some color) line = ok (record line { color = color })

resolve_for : Option Product → Texts → CartLineKey → Result CartLineKey
unfolding color_resolved
resolve_for none texts line = err HttpError.not_found
resolve_for (some product) texts line =
    if not product.is_active
    then err HttpError.bad_request
    else if line.color == 0
    then ok line
    else color_resolved (resolve_product_color texts product.colors line.color) line

-- `resolvePurchasableLine`
unfoldable pub resolve_purchasable_line : Texts → CartLineKey → Shelf → Result CartLineKey
unfolding resolve_for
resolve_purchasable_line texts line db =
    resolve_for (find (λ p. p.id == line.product_id) db.products) texts line

-- `@@unique([userId, productId, color, comboType])`
abbrev pub is_line : ℕ → CartLineKey → CartItem → Bool
is_line user_id line i =
    i.user_id == user_id
    && i.product_id == line.product_id
    && i.color == line.color
    && i.combo_type == line.combo_type

abbrev pub is_mine : ℕ → CartItem → Bool
is_mine user_id i = i.user_id == user_id

abbrev pub with_quantity : ℕ → CartItem → CartItem
with_quantity quantity i = record i { quantity = quantity }

abbrev is_new {ℓ} : {A : Type ℓ} → Option A → Bool
is_new none = true
is_new (some _) = false

-- `addItem` reads, upserts and cuts off in separate statements. First the tests, on what it reads: a
-- line that is new to a full cart is refused.
unfoldable pub check_line : Result CartLineKey → ℕ → Shelf → Result CartLineKey
check_line (err e) user_id db = err e
check_line (ok line) user_id db =
    if is_new (find (is_line user_id line) db.items)
      && leb cart_max_lines (count (is_mine user_id) db.items)
    then err HttpError.bad_request
    else ok line

-- Second `upsert`, one statement: the row as it is written, and the shelf. Whether the line is there
-- is settled by what the shelf holds at that moment.
unfoldable pub upsert_found : Option CartItem → ℕ → CartLineKey → ℕ → Shelf → CartItem × Shelf
upsert_found none user_id line quantity db =
    let item : CartItem = record {
      id = db.next_id;
      user_id = user_id;
      product_id = line.product_id;
      color = line.color;
      combo_type = line.combo_type;
      quantity = quantity;
    } in
    (item, record db { items = item ∷ db.items; next_id = db.next_id + 1 })
upsert_found (some old) user_id line quantity db =
    let more = λ (i : CartItem). with_quantity (i.quantity + quantity) i in
    (more old, record db { items = update_many (is_line user_id line) more db.items })

abbrev pub upsert_line : ℕ → CartLineKey → ℕ → Shelf → CartItem × Shelf
upsert_line user_id line quantity db =
    upsert_found (find (is_line user_id line) db.items) user_id line quantity db

-- Third, the update of a row that was written with too large a quantity.
abbrev pub clamp_line : CartItem → Shelf → Shelf
clamp_line item db =
    if ltb cart_max_quantity item.quantity
    then record db {
      items = update_many (λ i. i.id == item.id) (with_quantity cart_max_quantity) db.items;
    }
    else db

-- the two writes, where no other request writes in between
unfoldable pub write_line : ℕ → CartLineKey → ℕ → Shelf → Shelf
write_line user_id line quantity db =
    let (item, db') = upsert_line user_id line quantity db in clamp_line item db'

-- what follows the tests, on the shelf that the writes meet
unfoldable pub finish_add : Result CartLineKey → ℕ → ℕ → Shelf → Shelf × Result Bool
finish_add (err e) user_id quantity db = (db, err e)
finish_add (ok line) user_id quantity db = (write_line user_id line quantity db, ok true)

-- `addItem`, with the shelf that its tests read and the one that its writes meet
unfoldable pub add_item_between : Texts → ℕ → AddCartItemDto → Shelf → Shelf → Shelf × Result Bool
add_item_between texts user_id dto read db =
    finish_add
      (check_line (resolve_purchasable_line texts (to_line_key texts dto) read) user_id read)
      user_id dto.quantity db

-- `addItem` where no other request writes in between
abbrev pub add_item : Texts → ℕ → AddCartItemDto → Shelf → Shelf × Result Bool
add_item texts user_id dto db = add_item_between texts user_id dto db db

abbrev answer : ℕ → Result Bool
answer n = if n == 0 then err HttpError.not_found else ok true

-- `updateQuantity`
unfoldable pub update_quantity : ℕ → ℕ → ℕ → Shelf → Shelf × Result Bool
update_quantity user_id id quantity db = (
  record db {
    items = update_many (λ i. i.id == id && is_mine user_id i) (with_quantity quantity) db.items;
  },
  answer (count (λ i. i.id == id && is_mine user_id i) db.items),
)

-- `removeItem`
unfoldable pub remove_item : ℕ → ℕ → Shelf → Shelf × Result Bool
remove_item user_id id db = (
  record db { items = delete_many (λ i. i.id == id && is_mine user_id i) db.items },
  answer (count (λ i. i.id == id && is_mine user_id i) db.items),
)

-- `clear`
unfoldable pub clear : ℕ → Shelf → Shelf
clear user_id db = record db { items = delete_many (is_mine user_id) db.items }

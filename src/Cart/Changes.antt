-- ===== src/Cart/Changes.antt =====
-- The operations on a cart keep it orderable.
use fashion_ai_be.Prelude.{
  ℕ, ◌+◌, ◌<◌, ◌≤◌, ◌==◌, ◌≡◌, refl, ap, ◌⊎◌, inl, inr, ltb, leb, true, false, ◌&&◌, none, some,
  arith, All, All-zip, All-update_many, find, count, update_many, if◌then◌else◌, Bool-cases,
  Option-cases,
}
use fashion_ai_be.Orders.Tx.{Result, ok, err}
use fashion_ai_be.Cart.Items.{
  Texts, CartItem, CartLineKey, Shelf, AddCartItemDto, cart_max_lines, cart_max_quantity, is_line,
  is_mine, with_quantity, write_line, upsert_found, to_line_key, resolve_purchasable_line,
  check_line, finish_add, add_item_between, add_item, update_quantity, remove_item, clear,
}
use fashion_ai_be.Cart.Limits.{
  IsCart, IsOrderable, Distinct, Keeps, count-update, update-Distinct, same_line, update-IsCart,
  delete-IsCart,
}

-- As an orderable cart, but for one line more.
abbrev pub IsNearlyCart : Shelf → Type 0
IsNearlyCart db =
    Distinct db.items
    × All IsOrderable db.items
    × ((k : ℕ) → count (is_mine k) db.items ≤ cart_max_lines + 1)

nearly : {db : Shelf} → IsCart db → IsNearlyCart db
nearly h = (h.distinct, h.orderable, λ k. omega (arith, h.short k))

abbrev more : ℕ → CartItem → CartItem
more quantity i = with_quantity (i.quantity + quantity) i

-- Only the row that was added to may lie above the bound.
Raised : CartItem → CartItem → Type 0
Raised old i = (1 ≤ i.quantity) × ((i.quantity ≤ cart_max_quantity) ⊎ (i.id ≡ old.id))

raise-Raised :
    (user_id : ℕ) (line : CartLineKey) (quantity : ℕ) (old i : CartItem)
    → IsOrderable i × (is_line user_id line i ≡ true → i ≡ old)
    → Raised old (if is_line user_id line i then more quantity i else i)
unfolding Raised
raise-Raised user_id line quantity old i h = elim (Bool-cases (is_line user_id line i)) [
  | inl hit ↦
      let e : i ≡ old = h.1 hit in rw hit (ground arith, inr (ap (λ (x : CartItem). x.id) e))
  | inr miss ↦ rw miss (h.0.0, inl h.0.1)
]

clamp-IsOrderable :
    (old i : CartItem)
    → Raised old i
    → IsOrderable (if i.id == old.id then with_quantity cart_max_quantity i else i)
unfolding Raised
clamp-IsOrderable old i h = ground arith

no_raise-IsOrderable :
    (user_id : ℕ) (line : CartLineKey) (quantity : ℕ) (old i : CartItem)
    → old.quantity + quantity ≤ cart_max_quantity
    → IsOrderable i × (is_line user_id line i ≡ true → i ≡ old)
    → IsOrderable (if is_line user_id line i then more quantity i else i)
no_raise-IsOrderable user_id line quantity old i le h = elim (Bool-cases (is_line user_id line i)) [
  | inl hit ↦
      let e : i ≡ old = h.1 hit in
      let q : i.quantity ≡ old.quantity = ap (λ (x : CartItem). x.quantity) e in
      rw hit (ground arith, ground arith)
  | inr miss ↦ rw miss h.0
]

module _ (user_id : ℕ) (line : CartLineKey) (quantity : ℕ) (db : Shelf) (h : IsCart db) where
  add_to-IsCart :
      {old : CartItem}
      → find (is_line user_id line) db.items ≡ some old
      → IsCart (write_line user_id line quantity db)
  unfolding write_line upsert_found
  add_to-IsCart {old} found =
      let rows =
        All-zip IsOrderable _ db.items h.orderable
          (same_line user_id line old db.items h.distinct found) in
      let raised =
        All-update_many _ (Raised old) (is_line user_id line) (more quantity) db.items
          (raise-Raised user_id line quantity old) rows in
      let line_of = is_line user_id line in
      let added = update_many line_of (more quantity) db.items in
      let keep : Keeps (more quantity) = λ i. (refl, refl, refl, refl) in
      elim (Bool-cases (ltb cart_max_quantity (old.quantity + quantity))) [
        | inl above ↦
            rw (found, above)
              (record {
                distinct =
                    update-Distinct (λ i. i.id == old.id) (with_quantity cart_max_quantity) added
                      (λ i. (refl, refl, refl, refl))
                      (update-Distinct line_of (more quantity) db.items keep h.distinct);
                orderable =
                    All-update_many (Raised old) IsOrderable (λ i. i.id == old.id)
                      (with_quantity cart_max_quantity) added (clamp-IsOrderable old) raised;
                short = λ k.
                    rw
                      (
                        count-update k (λ i. i.id == old.id) (with_quantity cart_max_quantity) added
                            (λ i. (refl, refl, refl, refl)),
                        count-update k line_of (more quantity) db.items keep,
                      )
                      (h.short k);
              })
        | inr within ↦
            rw (found, within)
              (update-IsCart line_of (more quantity) db keep
                (All-update_many _ IsOrderable line_of (more quantity) db.items
                  (λ i. no_raise-IsOrderable user_id line quantity old i (ground arith)) rows)
                h)
      ]

  add_new-IsNearlyCart :
      1 ≤ quantity
      → quantity ≤ cart_max_quantity
      → find (is_line user_id line) db.items ≡ none
      → IsNearlyCart (write_line user_id line quantity db)
  unfolding write_line upsert_found
  add_new-IsNearlyCart low high absent =
      let fits : ltb cart_max_quantity quantity ≡ false = ground arith in
      rw (absent, fits)
        ((absent, h.distinct), ((low, high), h.orderable), λ k. ground (arith, h.short k))

  add_new-IsCart :
      1 ≤ quantity
      → quantity ≤ cart_max_quantity
      → find (is_line user_id line) db.items ≡ none
      → count (is_mine user_id) db.items < cart_max_lines
      → IsCart (write_line user_id line quantity db)
  unfolding write_line upsert_found
  add_new-IsCart low high absent room =
      let fits : ltb cart_max_quantity quantity ≡ false = ground arith in
      rw (absent, fits)
        (record {
          distinct = (absent, h.distinct);
          orderable = ((low, high), h.orderable);
          short = λ k. ground (arith, h.short k);
        })

  write_line-IsNearlyCart :
      1 ≤ quantity
      → quantity ≤ cart_max_quantity
      → IsNearlyCart (write_line user_id line quantity db)
  write_line-IsNearlyCart low high = elim (Option-cases (find (is_line user_id line) db.items)) [
    | inl absent ↦ add_new-IsNearlyCart low high absent
    | inr (old, found) ↦ nearly (add_to-IsCart {old = old} found)
  ]

checked-IsCart :
    (r : Result CartLineKey) (user_id quantity : ℕ) (db : Shelf)
    → 1 ≤ quantity
    → quantity ≤ cart_max_quantity
    → IsCart db
    → IsCart (finish_add (check_line r user_id db) user_id quantity db).0
unfolding check_line finish_add
checked-IsCart (err e) user_id quantity db low high h = h
checked-IsCart (ok line) user_id quantity db low high h =
    elim (Option-cases (find (is_line user_id line) db.items)) [
      | inr (old, found) ↦ rw found (add_to-IsCart user_id line quantity db h {old = old} found)
      | inl absent ↦ elim (Bool-cases (leb cart_max_lines (count (is_mine user_id) db.items))) [
        | inl full ↦ rw (absent, full) h
        | inr room ↦
            rw (absent, room)
              (add_new-IsCart user_id line quantity db h low high absent (ground arith))
      ]
    ]

finish-IsNearlyCart :
    (r : Result CartLineKey) (user_id quantity : ℕ) (db : Shelf)
    → 1 ≤ quantity
    → quantity ≤ cart_max_quantity
    → IsCart db
    → IsNearlyCart (finish_add r user_id quantity db).0
unfolding finish_add
finish-IsNearlyCart (err e) user_id quantity db low high h = nearly h
finish-IsNearlyCart (ok line) user_id quantity db low high h =
    write_line-IsNearlyCart user_id line quantity db h low high

-- `addItem` of 1 to 1,000 pieces, whatever it answers, where every cart is orderable: at most 50
-- lines, each of 1 to 1,000 pieces, and no line twice. Where no other request writes between its
-- statements, every cart stays orderable. Where others wrote between its tests and its two writes,
-- left every cart orderable and wrote nothing between the two, each line is still there once and of 1
-- to 1,000 pieces, and a cart has 51 lines at most.
pub add_item-IsCart :
    (texts : Texts) (user_id : ℕ) (dto : AddCartItemDto) (db between : Shelf)
    → 1 ≤ dto.quantity
    → dto.quantity ≤ cart_max_quantity
    → IsCart db
    → IsCart between
    → IsCart (add_item texts user_id dto db).0
      × IsNearlyCart (add_item_between texts user_id dto db between).0
unfolding add_item_between
add_item-IsCart texts user_id dto db between low high h others =
    let line = resolve_purchasable_line texts (to_line_key texts dto) db in
    (
      checked-IsCart line user_id dto.quantity db low high h,
      finish-IsNearlyCart (check_line line user_id db) user_id dto.quantity between low high others,
    )

-- `updateQuantity` to 1 to 1,000 pieces keeps every cart orderable.
update_quantity-IsCart :
    (user_id id quantity : ℕ) (db : Shelf)
    → 1 ≤ quantity
    → quantity ≤ cart_max_quantity
    → IsCart db
    → IsCart (update_quantity user_id id quantity db).0
unfolding update_quantity
update_quantity-IsCart user_id id quantity db low high h =
    update-IsCart (λ i. i.id == id && is_mine user_id i) (with_quantity quantity) db
      (λ i. (refl, refl, refl, refl))
      (All-update_many IsOrderable IsOrderable (λ i. i.id == id && is_mine user_id i)
        (with_quantity quantity) db.items (λ i good. ground arith) h.orderable)
      h

-- `removeItem` and `clear` keep every cart orderable.
remove-IsCart :
    (user_id id : ℕ) (db : Shelf)
    → IsCart db
    → IsCart (remove_item user_id id db).0 × IsCart (clear user_id db)
unfolding remove_item clear
remove-IsCart user_id id db h = (
  delete-IsCart (λ i. i.id == id && is_mine user_id i) db h,
  delete-IsCart (is_mine user_id) db h,
)

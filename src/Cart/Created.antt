-- ===== src/Cart/Created.antt =====
-- The lines that `merge` creates, and the room that is left after them.
use fashion_ai_be.Prelude.{
  ℕ, ◌+◌, ◌-◌, ◌≡◌, refl, ◌∙◌, ap, inl, inr, ltb, Bool, true, false, List, [], ◌∷◌, arith, All,
  All-map, All-zip, count, Bool-cases,
}
use fashion_ai_be.Cart.Items.{CartItem, CartLineKey, Shelf, is_line, is_mine}
use fashion_ai_be.Cart.Purchased.{CartLine}
use fashion_ai_be.Cart.Merge.{pick_key, same_key, has_line, accept, create_lines}
use fashion_ai_be.Cart.Accepted.{OneEach, room_left, accept_known, accept_new, accept_none}

module _ (user_id : ℕ) (l : CartLine) (ls : List CartLine) (db : Shelf) where
  pub create_there :
      has_line user_id (pick_key l) db.items ≡ true
      → create_lines user_id (l ∷ ls) db ≡ create_lines user_id ls db
  unfolding create_lines
  create_there there = rw there refl

  abbrev pub with_line : Shelf
  with_line = record db {
    items =
        record {
          id = db.next_id;
          user_id = user_id;
          product_id = l.product_id;
          color = l.color;
          combo_type = l.combo_type;
          quantity = l.quantity;
        }
        ∷ db.items;
    next_id = db.next_id + 1;
  }

  pub create_missing :
      has_line user_id (pick_key l) db.items ≡ false
      → create_lines user_id (l ∷ ls) db ≡ create_lines user_id ls with_line
  unfolding create_lines
  create_missing missing = rw missing refl

-- A new line is a line of no other id.
has_more :
    (user_id : ℕ) (l x : CartLine) (there : CartLineKey → Bool) (i : CartItem)
    (items : List CartItem)
    → is_line user_id (pick_key x) i ≡ same_key (pick_key l) (pick_key x)
    → (same_key (pick_key l) (pick_key x) ≡ false)
      × (there (pick_key x) ≡ has_line user_id (pick_key x) items)
    → there (pick_key x) ≡ has_line user_id (pick_key x) (i ∷ items)
has_more user_id l x there i items e h = ground (arith, e, h.0, h.1)

-- The lines that are created and the room that is left make up the room that was.
pub create-room :
    (user_id : ℕ) (there : CartLineKey → Bool) (free : ℕ) (ls : List CartLine) (db : Shelf)
    → OneEach ls
    → All (λ l. there (pick_key l) ≡ has_line user_id (pick_key l) db.items) ls
    → count (is_mine user_id) (create_lines user_id (accept there free ls) db).items
        + room_left there free ls
      ≡ count (is_mine user_id) db.items + free
unfolding accept create_lines
create-room user_id there free [] db one known = refl
create-room user_id there free (l ∷ ls) db one same = elim (Bool-cases (there (pick_key l))) [
  | inl known ↦
      let has : has_line user_id (pick_key l) db.items ≡ true = ground (arith, same.0, known) in
      ap mine (
        ap (λ a. create_lines user_id a db) (accept_known there free l ls known)
        ∙ create_there user_id l (accept there free ls) db has)
      ∙ ap (λ r. count (is_mine user_id) (create_lines user_id (accept there free ls) db).items + r)
          (rw known refl)
      ∙ create-room user_id there free ls db one.1 same.1
  | inr new ↦
      let has : has_line user_id (pick_key l) db.items ≡ false = ground (arith, same.0, new) in
      elim (Bool-cases (ltb 0 free)) [
        | inl room ↦
            let item_line =
              λ (x : CartLine)
                  (h : (same_key (pick_key l) (pick_key x) ≡ false)
                    × (there (pick_key x) ≡ has_line user_id (pick_key x) db.items)).
                has_more user_id l x there (first_item db) db.items (ground arith) h in
            let rest =
              create-room user_id there (free - 1) ls (with_line user_id l ls db) one.1
                (All-map _ _ ls item_line (All-zip _ _ ls one.0 same.1)) in
            ap mine (
              ap (λ a. create_lines user_id a db) (accept_new there free l ls new room)
              ∙ create_missing user_id l (accept there (free - 1) ls) db has)
            ∙ ap
                (λ r.
                  count (is_mine user_id)
                    (create_lines user_id (accept there (free - 1) ls)
                      (with_line user_id l ls db)).items
                  + r)
                (rw (new, room) refl)
            ∙ rest
            ∙ ground (arith, room)
        | inr full ↦
            ap mine (ap (λ a. create_lines user_id a db) (accept_none there free l ls new full))
            ∙ ap
                (λ r.
                  count (is_mine user_id) (create_lines user_id (accept there free ls) db).items
                  + r)
                (rw (new, full) refl)
            ∙ create-room user_id there free ls db one.1 same.1
      ]
]
  where
    mine : Shelf → ℕ
    mine d = count (is_mine user_id) d.items + room_left there free (l ∷ ls)

    first_item : Shelf → CartItem
    first_item d = record {
      id = d.next_id;
      user_id = user_id;
      product_id = l.product_id;
      color = l.color;
      combo_type = l.combo_type;
      quantity = l.quantity;
    }

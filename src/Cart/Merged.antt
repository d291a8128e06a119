-- ===== src/Cart/Merged.antt =====
-- A merge of a guest's cart that is sent again changes nothing.
use fashion_ai_be.Prelude.{
  ℕ, ◌+◌, ◌-◌, ◌<◌, ◌≡◌, refl, ◌∙◌, ap, inl, inr, ltb, Bool, true, ◌||◌, List, [], ◌∷◌, arith, All,
  All-map, any, count, Bool-cases,
}
use mathlib.Core.Path.{subst}
use fashion_ai_be.Cart.Items.{CartItem, CartLineKey, Shelf, is_mine, cart_max_lines}
use fashion_ai_be.Cart.Purchased.{CartLine}
use fashion_ai_be.Cart.Merge.{pick_key, has_line, accept, create_lines, raise_lines, merge_lines}
use fashion_ai_be.Cart.Accepted.{
  is_key, OneEach, room_left, all_accepted, All-accept, accept_full, All-IsDecided,
}
use fashion_ai_be.Cart.Created.{create-room}
use fashion_ai_be.Cart.Raised.{
  has-create, has-raise, count-raise, Holds, raise-Holds, missing-Holds, raise_nothing,
  create_nothing,
}

module _ (user_id : ℕ) where
  All-inside : (ls : List CartLine) → All (λ l. any (is_key (pick_key l)) ls ≡ true) ls
  All-inside [] = tt
  All-inside (l ∷ ls) =
      (ground arith, All-map _ _ ls (λ x inside. ground (arith, inside)) (All-inside ls))

  module _ (ls : List CartLine) (db : Shelf) (one : OneEach ls) where
    abbrev there : CartLineKey → Bool
    there k = has_line user_id k db.items

    abbrev accepted : List CartLine
    accepted = accept there (cart_max_lines - count (is_mine user_id) db.items) ls

    abbrev merged : List CartItem
    merged = raise_lines user_id accepted (create_lines user_id accepted db).items

    has-merged :
        (k : CartLineKey)
        → has_line user_id k merged ≡ (has_line user_id k db.items || any (is_key k) accepted)
    has-merged k = has-raise user_id k accepted _ ∙ has-create user_id k accepted db

    merged-Holds : All (λ l. All (Holds user_id l) merged) ls
    merged-Holds =
        All-map _ _ ls
          (λ l decided. elim decided [
            | inl covered ↦ raise-Holds user_id l accepted _ covered
            | inr out ↦
                missing-Holds user_id l merged
                  (has-merged (pick_key l) ∙ ground (arith, out.0, out.1))
          ])
          (All-IsDecided there (cart_max_lines - count (is_mine user_id) db.items) ls one)

    All-refl :
        (xs : List CartLine)
        → All (λ l. there (pick_key l) ≡ has_line user_id (pick_key l) db.items) xs
    All-refl [] = tt
    All-refl (x ∷ xs) = (refl, All-refl xs)

    abbrev room : ℕ
    room = cart_max_lines - count (is_mine user_id) db.items

    -- Where room is left after the merge, every line is there.
    every_there :
        0 < room_left there room ls → All (λ l. has_line user_id (pick_key l) merged ≡ true) ls
    every_there left =
        All-map _ _ ls
          (λ l inside.
            has-merged (pick_key l)
            ∙ ground
                (arith, inside, ap (any (is_key (pick_key l))) (all_accepted there room ls left)))
          (All-inside ls)

    count-merged :
        count (is_mine user_id) merged + room_left there room ls
        ≡ count (is_mine user_id) db.items + room
    count-merged =
        ap (λ n. n + room_left there room ls) (count-raise user_id accepted _)
        ∙ create-room user_id there room ls db one (All-refl ls)

    abbrev room_again : ℕ
    room_again = cart_max_lines - count (is_mine user_id) merged

    -- What the second merge accepts is there already.
    accepted_there :
        All
          (λ l. has_line user_id (pick_key l) merged ≡ true)
          (accept (λ k. has_line user_id k merged) room_again ls)
    accepted_there = elim (Bool-cases (ltb 0 room_again)) [
      | inl more ↦
          All-accept _ (λ k. has_line user_id k merged) room_again ls
            (every_there (ground (arith, count-merged, more)))
      | inr full ↦
          let none_left : 0 ≡ room_again = ground (arith, full) in
          subst
            (λ n.
              All (λ l. has_line user_id (pick_key l) merged ≡ true)
                (accept (λ k. has_line user_id k merged) n ls))
            none_left (accept_full (λ k. has_line user_id k merged) ls)
    ]

    pub merge_lines_again :
        merge_lines user_id ls (merge_lines user_id ls db) ≡ merge_lines user_id ls db
    unfolding merge_lines
    merge_lines_again =
        let after : Shelf = record (create_lines user_id accepted db) { items = merged } in
        let again = accept (λ k. has_line user_id k merged) room_again ls in
        let created = create_nothing user_id again after accepted_there in
        let raised =
          raise_nothing user_id again merged
            (All-accept _ (λ k. has_line user_id k merged) room_again ls merged-Holds) in
        ap (λ (d : Shelf). record d { items = raise_lines user_id again d.items }) created
        ∙ ap (λ is. record after { items = is }) raised

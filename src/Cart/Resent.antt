-- ===== src/Cart/Resent.antt =====
-- The lines that `merge` takes from the items have distinct ids, so that a merge sent again changes
-- nothing.
use fashion_ai_be.Prelude.{
  ℕ, ◌==◌, ◌≡◌, refl, ◌∙◌, ap, inl, inr, Bool, false, ◌&&◌, Option, none, some, List, [], ◌∷◌,
  arith, All, find, Bool-cases,
}
use fashion_ai_be.Cart.Items.{Texts, Product, CartLineKey, AddCartItemDto, Shelf, to_line_key}
use fashion_ai_be.Cart.Purchased.{CartLine, insert_line, sort_lines}
use fashion_ai_be.Cart.Merge.{
  Incoming, pick_key, same_key, has_line, put_incoming, color_for, collect_colored, collect_found,
  collect, no_lines, create_lines, merge_lines, merge,
}
use fashion_ai_be.Cart.Accepted.{OneEach}
use fashion_ai_be.Cart.Created.{create_there, create_missing, with_line}
use fashion_ai_be.Cart.Merged.{merge_lines_again}

abbrev IsOther : CartLine → CartLine → Type 0
IsOther l x = same_key (pick_key l) (pick_key x) ≡ false

put-IsOther :
    (l : CartLine) (k : CartLineKey) (q : ℕ) (ls : List CartLine)
    → same_key (pick_key l) k ≡ false
    → All (IsOther l) ls
    → All (IsOther l) (put_incoming k q ls)
unfolding put_incoming
put-IsOther l k q [] new h = (new, tt)
put-IsOther l k q (x ∷ xs) new h = elim (Bool-cases (same_key (pick_key x) k)) [
  | inl same ↦ rw same (h.0, h.1)
  | inr other ↦ rw other (h.0, put-IsOther l k q xs new h.1)
]

put-OneEach :
    (k : CartLineKey) (q : ℕ) (ls : List CartLine) → OneEach ls → OneEach (put_incoming k q ls)
unfolding put_incoming
put-OneEach k q [] h = (tt, tt)
put-OneEach k q (x ∷ xs) h = elim (Bool-cases (same_key (pick_key x) k)) [
  | inl same ↦ rw same (h.0, h.1)
  | inr other ↦ rw other (put-IsOther x k q xs other h.0, put-OneEach k q xs h.1)
]

collect_colored-OneEach :
    (color : Option ℕ) (line : CartLineKey) (quantity : ℕ) (inc : Incoming)
    → OneEach inc.lines
    → OneEach (collect_colored color line quantity inc).lines
unfolding collect_colored
collect_colored-OneEach none line quantity inc h = h
collect_colored-OneEach (some color) line quantity inc h =
    put-OneEach (record line { color = color }) quantity inc.lines h

collect_found-OneEach :
    (found : Option Product) (texts : Texts) (line : CartLineKey) (quantity : ℕ) (inc : Incoming)
    → OneEach inc.lines
    → OneEach (collect_found found texts line quantity inc).lines
unfolding collect_found
collect_found-OneEach none texts line quantity inc h = h
collect_found-OneEach (some product) texts line quantity inc h =
    collect_colored-OneEach (color_for texts product line.color) line quantity inc h

collect-OneEach :
    (texts : Texts) (products : List Product) (items : List AddCartItemDto) (inc : Incoming)
    → OneEach inc.lines
    → OneEach (collect texts products items inc).lines
unfolding collect
collect-OneEach texts products [] inc h = h
collect-OneEach texts products (i ∷ is) inc h =
    let line = to_line_key texts i in
    collect-OneEach texts products is _ (
      collect_found-OneEach (find (λ p. p.id == line.product_id && p.is_active) products) texts line
        i.quantity inc h)

module _ (comes_before : CartLine → CartLine → Bool) where
  insert-All {κ} :
      (P : CartLine → Type κ) (l : CartLine) (ls : List CartLine)
      → P l
      → All P ls
      → All P (insert_line comes_before l ls)
  insert-All P l [] p h = (p, tt)
  insert-All P l (x ∷ xs) p h = elim (Bool-cases (comes_before x l)) [
    | inl before ↦ rw before (h.0, insert-All P l xs p h.1)
    | inr after ↦ rw after (p, (h.0, h.1))
  ]

  insert-OneEach :
      (l : CartLine) (ls : List CartLine)
      → All (IsOther l) ls
      → OneEach ls
      → OneEach (insert_line comes_before l ls)
  insert-OneEach l [] other h = (tt, tt)
  insert-OneEach l (x ∷ xs) other h = elim (Bool-cases (comes_before x l)) [
    | inl before ↦
        rw before (
          insert-All (IsOther x) l xs (ground (arith, other.0)) h.0,
          insert-OneEach l xs other.1 h.1,
        )
    | inr after ↦ rw after (other, h)
  ]

  sort-All {κ} :
      (P : CartLine → Type κ) (ls : List CartLine) → All P ls → All P (sort_lines comes_before ls)
  sort-All P [] h = tt
  sort-All P (l ∷ ls) h = insert-All P l (sort_lines comes_before ls) h.0 (sort-All P ls h.1)

  sort-OneEach : (ls : List CartLine) → OneEach ls → OneEach (sort_lines comes_before ls)
  sort-OneEach [] h = tt
  sort-OneEach (l ∷ ls) h =
      insert-OneEach l (sort_lines comes_before ls) (sort-All (IsOther l) ls h.0)
        (sort-OneEach ls h.1)

create-products :
    (user_id : ℕ) (acc : List CartLine) (db : Shelf)
    → (create_lines user_id acc db).products ≡ db.products
unfolding create_lines
create-products user_id [] db = refl
create-products user_id (l ∷ acc) db = elim (Bool-cases (has_line user_id (pick_key l) db.items)) [
  | inl there ↦
      ap (λ (d : Shelf). d.products) (create_there user_id l acc db there)
      ∙ create-products user_id acc db
  | inr missing ↦
      ap (λ (d : Shelf). d.products) (create_missing user_id l acc db missing)
      ∙ create-products user_id acc (with_line user_id l acc db)
]

merge_lines-products :
    (user_id : ℕ) (ls : List CartLine) (db : Shelf)
    → (merge_lines user_id ls db).products ≡ db.products
unfolding merge_lines
merge_lines-products user_id ls db = create-products user_id _ db

-- A merge of a guest's cart that is sent again leaves the rows of all carts as the first one left
-- them: nothing is counted twice, and a line that found no room before finds none now.
pub merge_again :
    (texts : Texts) (comes_before : CartLine → CartLine → Bool) (user_id : ℕ)
    (items : List AddCartItemDto) (db : Shelf)
    → let merged = (merge texts comes_before user_id items db).0 in
      (merge texts comes_before user_id items merged).0 ≡ merged
unfolding merge
merge_again texts comes_before user_id items db =
    let lines = sort_lines comes_before (collect texts db.products items no_lines).lines in
    ap
      (λ products.
        merge_lines user_id (sort_lines comes_before (collect texts products items no_lines).lines)
          (merge_lines user_id lines db))
      (merge_lines-products user_id lines db)
    ∙ merge_lines_again user_id lines db
        (sort-OneEach comes_before _ (collect-OneEach texts db.products items no_lines tt))

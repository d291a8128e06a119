-- ===== src/Cart/Accepted.antt =====
-- Which lines of a guest's cart are taken over, and what they leave of the room in the cart.
use fashion_ai_be.Prelude.{
  ℕ, ◌-◌, ◌<◌, ◌≡◌, refl, sym, inl, inr, ◌⊎◌, ltb, leb, Bool, true, false, ◌&&◌, List, [], ◌∷◌,
  arith, All, All-map, All-zip, any, if◌then◌else◌, Bool-cases,
}
use mathlib.Core.Path.{subst}
use fashion_ai_be.Cart.Items.{CartLineKey}
use fashion_ai_be.Cart.Purchased.{CartLine}
use fashion_ai_be.Cart.Merge.{pick_key, same_key, accept}

abbrev pub is_key : CartLineKey → CartLine → Bool
is_key k l = same_key (pick_key l) k

-- No two lines have one id.
abbrev pub OneEach : List CartLine → Type 0
OneEach [] = Unit
OneEach (l ∷ ls) = All (λ x. same_key (pick_key l) (pick_key x) ≡ false) ls × OneEach ls

-- how many more lines the cart takes after those that were accepted
abbrev pub room_left : (CartLineKey → Bool) → ℕ → List CartLine → ℕ
room_left there free [] = free
room_left there free (l ∷ ls) =
    let known = room_left there free ls in
    let fresh = room_left there (free - 1) ls in
    if there (pick_key l) then known else if ltb 0 free then fresh else known

no_room : (there : CartLineKey → Bool) (ls : List CartLine) → room_left there 0 ls ≡ 0
no_room there [] = refl
no_room there (l ∷ ls) = ground (arith, no_room there ls)

-- Where room is left, every line was accepted.
pub all_accepted :
    (there : CartLineKey → Bool) (free : ℕ) (ls : List CartLine)
    → 0 < room_left there free ls
    → accept there free ls ≡ ls
unfolding accept
all_accepted there free [] room = refl
all_accepted there free (l ∷ ls) room =
    ground (arith, all_accepted there free ls, all_accepted there (free - 1) ls, no_room there ls)

pub All-accept {κ} :
    (P : CartLine → Type κ) (there : CartLineKey → Bool) (free : ℕ) (ls : List CartLine)
    → All P ls
    → All P (accept there free ls)
unfolding accept
All-accept P there free [] h = tt
All-accept P there free (l ∷ ls) h = elim (Bool-cases (there (pick_key l))) [
  | inl known ↦ rw known (h.0, All-accept P there free ls h.1)
  | inr new ↦ elim (Bool-cases (ltb 0 free)) [
    | inl room ↦ rw (new, room) (h.0, All-accept P there (free - 1) ls h.1)
    | inr full ↦ rw (new, full) (All-accept P there free ls h.1)
  ]
]

-- Where the cart is full, only lines that are there are accepted.
pub accept_full :
    (there : CartLineKey → Bool) (ls : List CartLine)
    → All (λ l. there (pick_key l) ≡ true) (accept there 0 ls)
unfolding accept
accept_full there [] = tt
accept_full there (l ∷ ls) = elim (Bool-cases (there (pick_key l))) [
  | inl known ↦ rw known (known, accept_full there ls)
  | inr new ↦ rw new (accept_full there ls)
]

-- A line is accepted, or it is not in the cart and no line of its id is accepted.
abbrev pub IsDecided : (CartLineKey → Bool) → List CartLine → CartLine → Type 0
IsDecided there accepted l =
    (any (λ x. is_key (pick_key l) x && leb l.quantity x.quantity) accepted ≡ true)
    ⊎ ((there (pick_key l) ≡ false) × (any (is_key (pick_key l)) accepted ≡ false))

IsDecided-more :
    (there : CartLineKey → Bool) (accepted : List CartLine) (l x : CartLine)
    → (same_key (pick_key l) (pick_key x) ≡ false) × IsDecided there accepted x
    → IsDecided there (l ∷ accepted) x
IsDecided-more there accepted l x h = elim (h.1) [
  | inl covered ↦ inl (ground arith)
  | inr out ↦ inr (out.0, ground (arith, h.0, out.1))
]

none_accepted :
    (there : CartLineKey → Bool) (free : ℕ) (l : CartLine) (ls : List CartLine)
    → All (λ x. same_key (pick_key l) (pick_key x) ≡ false) ls
    → any (is_key (pick_key l)) (accept there free ls) ≡ false
unfolding accept
none_accepted there free l [] h = refl
none_accepted there free l (x ∷ xs) h =
    ground (arith, h.0, none_accepted there free l xs h.1, none_accepted there (free - 1) l xs h.1)

module _ (there : CartLineKey → Bool) (free : ℕ) (l : CartLine) (ls : List CartLine) where
  pub accept_known :
      there (pick_key l) ≡ true → accept there free (l ∷ ls) ≡ l ∷ accept there free ls
  unfolding accept
  accept_known known = rw known refl

  pub accept_new :
      there (pick_key l) ≡ false
      → ltb 0 free ≡ true
      → accept there free (l ∷ ls) ≡ l ∷ accept there (free - 1) ls
  unfolding accept
  accept_new new room = rw (new, room) refl

  pub accept_none :
      there (pick_key l) ≡ false
      → ltb 0 free ≡ false
      → accept there free (l ∷ ls) ≡ accept there free ls
  unfolding accept
  accept_none new full = rw (new, full) refl

pub All-IsDecided :
    (there : CartLineKey → Bool) (free : ℕ) (ls : List CartLine)
    → OneEach ls
    → All (IsDecided there (accept there free ls)) ls
All-IsDecided there free [] h = tt
All-IsDecided there free (l ∷ ls) h = elim (Bool-cases (there (pick_key l))) [
  | inl known ↦
      subst whole (sym (accept_known there free l ls known))
        (inl (ground arith), all_more (accept there free ls) (All-IsDecided there free ls h.1))
  | inr new ↦ elim (Bool-cases (ltb 0 free)) [
    | inl room ↦ subst whole (sym (accept_new there free l ls new room)) (
      inl (ground arith),
      all_more (accept there (free - 1) ls) (All-IsDecided there (free - 1) ls h.1),
    )
    | inr full ↦
        subst whole (sym (accept_none there free l ls new full))
          (inr (new, none_accepted there free l ls h.0), All-IsDecided there free ls h.1)
  ]
]
  where
    whole : List CartLine → Type 0
    whole accepted = All (IsDecided there accepted) (l ∷ ls)

    all_more :
        (accepted : List CartLine)
        → All (IsDecided there accepted) ls
        → All (IsDecided there (l ∷ accepted)) ls
    all_more accepted decided =
        All-map _ _ ls (IsDecided-more there accepted l) (All-zip _ _ ls h.0 decided)

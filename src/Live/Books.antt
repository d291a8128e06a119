-- ===== src/Live/Books.antt =====
-- The books of live try-on: what the budgets of a day hold and have charged.
use fashion_ai_be.Prelude.{
  ℕ, ◌+◌, ◌==◌, ◌≤◌, ◌≡◌, refl, Bool, true, false, ◌&&◌, ◌||◌, Option, none, some, List, [], ◌∷◌,
  any, find, update_many, find_holds, ap, ◌∙◌, find-update_many, any-update_many, Bool-cases,
  Option-cases, inl, inr, ◌≢◌, arith, All, sum_by, Unique, Below, pos, ◌+ℤ◌, ◌-ℤ◌, if◌then◌else◌,
}
use fashion_ai_be.Live.Tables.{
  LiveTryOnSession, LiveTryOnBudget, Studio, is_reserved, global_scope, user_scope, is_scope,
  reserved_column, allocated_column, reserved_of, allocated_of, upsert_budget, hold_seconds,
  settle_seconds,
}

abbrev pub id_of : LiveTryOnSession → ℕ
id_of s = s.id

abbrev pub in_scope : ℕ → ℕ → LiveTryOnSession → Bool
in_scope k d s = s.quota_date == d && (k == global_scope || k == user_scope s.user_id)

abbrev pub held_by : ℕ → ℕ → LiveTryOnSession → ℕ
held_by k d s = if is_reserved s.reservation_status && in_scope k d s then s.reserved_seconds else 0

abbrev pub charged_by : ℕ → ℕ → LiveTryOnSession → ℕ
charged_by k d s = if in_scope k d s then s.allocated_seconds else 0

-- The budgets that a session draws on are there.
abbrev pub HasBudgets : List LiveTryOnBudget → LiveTryOnSession → Type 0
HasBudgets bs s =
    (any (is_scope (user_scope s.user_id) s.quota_date) bs ≡ true)
    × (any (is_scope global_scope s.quota_date) bs ≡ true)

abbrev pub IsMetered : LiveTryOnSession → Type 0
IsMetered s =
    (s.allocated_seconds ≤ s.used_seconds)
    × (s.used_seconds ≤ s.reserved_seconds)
    × ((if is_reserved s.reservation_status then s.allocated_seconds else 0) ≡ 0)

-- A budget holds what the open sessions of its scope and day have reserved and has charged no more
-- than they used; both together stay within the limit of the scope; and no session used more than it
-- reserved.
pub record IsBooked (limit : ℕ → ℕ) (db : Studio) : Type 0 where
  pub unique : Unique id_of db.sessions
  pub below : Below id_of db.next_id db.sessions
  pub covered : All (HasBudgets db.budgets) db.sessions
  pub metered : All IsMetered db.sessions
  pub held : (k d : ℕ) → reserved_of k d db.budgets ≡ pos (sum_by (held_by k d) db.sessions)
  pub charged : (k d : ℕ) → allocated_of k d db.budgets ≤ sum_by (charged_by k d) db.sessions
  pub within : (k d : ℕ) → sum_by (held_by k d) db.sessions + allocated_of k d db.budgets ≤ limit k

module _ (k d k' d' : ℕ) where
  missing_scope :
      (bs : List LiveTryOnBudget)
      → any (is_scope k' d') bs ≡ false
      → (k == k' && d == d') ≡ true
      → find (is_scope k d) bs ≡ none
  missing_scope [] h e = refl
  missing_scope (b ∷ bs) h e = ground (arith, missing_scope bs)

  other_scope :
      (bs : List LiveTryOnBudget)
      → any (is_scope k' d') bs ≡ true
      → find (is_scope k d) bs ≡ none
      → (k == k' && d == d') ≡ false
  other_scope bs h e = elim (Bool-cases (k == k' && d == d')) [
    | inl same ↦ absurd (ground (arith, found_scope bs same))
    | inr other ↦ other
  ]
    where
      found_scope :
          (bs : List LiveTryOnBudget)
          → (k == k' && d == d') ≡ true
          → any (is_scope k' d') bs ≡ true
          → find (is_scope k d) bs ≢ none
      found_scope [] s h = ground arith
      found_scope (b ∷ bs) s h = ground (arith, found_scope bs s)

  -- A column of a budget after an update of the budgets of one scope and day.
  column_of-update {ℓ} :
      {C : Type ℓ} (column : Option LiveTryOnBudget → C) (g : C → C)
      (f : LiveTryOnBudget → LiveTryOnBudget) (bs : List LiveTryOnBudget)
      → ((b : LiveTryOnBudget) → is_scope k d (f b) ≡ is_scope k d b)
      → ((b : LiveTryOnBudget) → column (some (f b)) ≡ g (column (some b)))
      → any (is_scope k' d') bs ≡ true
      → column (find (is_scope k d) (update_many (is_scope k' d') f bs)) ≡ (
          if k == k' && d == d'
          then g (column (find (is_scope k d) bs))
          else column (find (is_scope k d) bs))
  column_of-update column g f bs keep step h =
      let moved = find-update_many (is_scope k d) (is_scope k' d') f bs keep in
      elim (Option-cases (find (is_scope k d) bs)) [
        | inl missing ↦ rw (moved, missing, other_scope bs h missing) refl
        | inr (b, found) ↦
            rw (moved, found)
              (ap (λ t. column (some (if t then f b else b)))
                  (here b (find_holds (is_scope k d) bs {x = b} found))
                ∙ split (k == k' && d == d') b)
      ]
    where
      here : (b : LiveTryOnBudget) → is_scope k d b ≡ true → is_scope k' d' b ≡ (k == k' && d == d')
      here b e = ground arith

      split :
          (t : Bool) (b : LiveTryOnBudget)
          → column (some (if t then f b else b))
            ≡ (if t then g (column (some b)) else column (some b))
      split true b = step b
      split false b = refl

  pub reserved_of-settle :
      (n used : ℕ) (bs : List LiveTryOnBudget)
      → any (is_scope k' d') bs ≡ true
      → reserved_of k d (settle_seconds k' d' n used bs)
        ≡ (if k == k' && d == d' then reserved_of k d bs -ℤ pos n else reserved_of k d bs)
  unfolding settle_seconds
  reserved_of-settle n used bs h =
      column_of-update reserved_column (λ c. c -ℤ pos n) _ bs (λ b. refl) (λ b. refl) h

  pub allocated_of-settle :
      (n used : ℕ) (bs : List LiveTryOnBudget)
      → any (is_scope k' d') bs ≡ true
      → allocated_of k d (settle_seconds k' d' n used bs)
        ≡ (if k == k' && d == d' then allocated_of k d bs + used else allocated_of k d bs)
  unfolding settle_seconds
  allocated_of-settle n used bs h =
      column_of-update allocated_column (λ c. c + used) _ bs (λ b. refl) (λ b. refl) h

  pub reserved_of-hold :
      (n : ℕ) (bs : List LiveTryOnBudget)
      → any (is_scope k' d') bs ≡ true
      → reserved_of k d (hold_seconds k' d' n bs)
        ≡ (if k == k' && d == d' then reserved_of k d bs +ℤ pos n else reserved_of k d bs)
  unfolding hold_seconds
  reserved_of-hold n bs h =
      column_of-update reserved_column (λ c. c +ℤ pos n) _ bs (λ b. refl) (λ b. refl) h

  pub allocated_of-hold :
      (n : ℕ) (bs : List LiveTryOnBudget)
      → any (is_scope k' d') bs ≡ true
      → allocated_of k d (hold_seconds k' d' n bs) ≡ allocated_of k d bs
  unfolding hold_seconds
  allocated_of-hold n bs h =
      column_of-update allocated_column (λ c. c) _ bs (λ b. refl) (λ b. refl) h ∙ ground arith

  pub any-settle :
      (n used : ℕ) (bs : List LiveTryOnBudget)
      → any (is_scope k d) (settle_seconds k' d' n used bs) ≡ any (is_scope k d) bs
  unfolding settle_seconds
  any-settle n used bs = any-update_many (is_scope k d) (is_scope k' d') _ bs (λ b. refl)

  pub any-hold :
      (n : ℕ) (bs : List LiveTryOnBudget)
      → any (is_scope k d) (hold_seconds k' d' n bs) ≡ any (is_scope k d) bs
  unfolding hold_seconds
  any-hold n bs = any-update_many (is_scope k d) (is_scope k' d') _ bs (λ b. refl)

  pub reserved_of-upsert :
      (bs : List LiveTryOnBudget) → reserved_of k d (upsert_budget k' d' bs) ≡ reserved_of k d bs
  unfolding upsert_budget
  reserved_of-upsert bs = ground (arith, missing_scope bs)

  pub allocated_of-upsert :
      (bs : List LiveTryOnBudget) → allocated_of k d (upsert_budget k' d' bs) ≡ allocated_of k d bs
  unfolding upsert_budget
  allocated_of-upsert bs = ground (arith, missing_scope bs)

  pub any-upsert :
      (bs : List LiveTryOnBudget)
      → any (is_scope k d) bs ≡ true
      → any (is_scope k d) (upsert_budget k' d' bs) ≡ true
  unfolding upsert_budget
  any-upsert bs h = ground arith

pub any-upsert_self :
    (k d : ℕ) (bs : List LiveTryOnBudget) → any (is_scope k d) (upsert_budget k d bs) ≡ true
unfolding upsert_budget
any-upsert_self k d bs = ground arith

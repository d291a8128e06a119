-- ===== src/Live/Drained.antt =====
-- The job that settles expired sessions, `reconcileExpiredSessions` of
-- src/modules/try-on/live-try-on.service.ts, leaves none behind.
use fashion_ai_be.Prelude.{
  ℕ, zero, suc, ◌==◌, ==_iff, ◌≤◌, ◌≡◌, refl, ap, ◌∙◌, inl, inr, Bool, true, false, not, ◌||◌, some,
  List, [], ◌∷◌, arith, All, All-map, All-zip, All-update_many, All-same_key, none_of_missing,
  find_holds, find_by-find, any, find, find_many, count, length, take, ltb, Bool-cases,
  Option-cases,
}
use fashion_ai_be.Live.Tables.{LiveTryOnSession, LiveTryOnPolicy, Studio, is_reserved}
use fashion_ai_be.Live.Sessions.{
  compute_used_seconds, settled_session, has_budget, settle_found, settle_expired_session,
  is_settleable, settle_each, reconcile_batch, insert_by_block, sort_by_block,
  reconcile_expired_sessions,
}
use fashion_ai_be.Live.Books.{id_of, IsBooked}
use fashion_ai_be.Live.Closing.{covered_found}
use fashion_ai_be.Live.Preservation.{settle-IsBooked}

any-insert_by_block :
    (p : LiveTryOnSession → Bool) (s : LiveTryOnSession) (xs : List LiveTryOnSession)
    → any p (insert_by_block s xs) ≡ any p (s ∷ xs)
unfolding insert_by_block
any-insert_by_block p s [] = refl
any-insert_by_block p s (x ∷ xs) = ground (arith, any-insert_by_block p s xs)

any-sort_by_block :
    (p : LiveTryOnSession → Bool) (xs : List LiveTryOnSession) → any p (sort_by_block xs) ≡ any p xs
unfolding sort_by_block
any-sort_by_block p [] = refl
any-sort_by_block p (x ∷ xs) =
    any-insert_by_block p x (sort_by_block xs) ∙ ground (arith, any-sort_by_block p xs)

length-insert_by_block :
    (s : LiveTryOnSession) (xs : List LiveTryOnSession)
    → length (insert_by_block s xs) ≡ suc (length xs)
unfolding insert_by_block
length-insert_by_block s [] = refl
length-insert_by_block s (x ∷ xs) = ground (arith, length-insert_by_block s xs)

length-sort_by_block :
    (q : LiveTryOnSession → Bool) (xs : List LiveTryOnSession)
    → length (sort_by_block (find_many q xs)) ≡ count q xs
unfolding sort_by_block
length-sort_by_block q [] = refl
length-sort_by_block q (x ∷ xs) = elim (Bool-cases (q x)) [
  | inl hit ↦
      rw (hit, length-insert_by_block x (sort_by_block (find_many q xs)))
        (omega (arith, length-sort_by_block q xs))
  | inr miss ↦ rw miss (omega (arith, length-sort_by_block q xs))
]

take_all {ℓ} : {A : Type ℓ} (n : ℕ) (xs : List A) → length xs ≤ n → take n xs ≡ xs
take_all zero [] h = refl
take_all zero (x ∷ xs) h = absurd (omega arith)
take_all (suc n) [] h = refl
take_all (suc n) (x ∷ xs) h = ap (◌∷◌ x) (take_all n xs (omega arith))

-- The id of the session stands in the list.
abbrev HasId : List LiveTryOnSession → LiveTryOnSession → Type 0
HasId rows s = any (λ x. x.id == s.id) rows ≡ true

-- A session that is due is still to come.
abbrev IsAwaited : ℕ → List LiveTryOnSession → LiveTryOnSession → Type 0
IsAwaited now rows s = is_settleable now s ≡ true → HasId rows s

selected_HasId :
    (q : LiveTryOnSession → Bool) (xs : List LiveTryOnSession)
    → All (λ s. q s ≡ true → HasId (find_many q xs) s) xs
selected_HasId q [] = tt
selected_HasId q (x ∷ xs) = (
  (λ h. ground arith),
  All-map (λ s. q s ≡ true → HasId (find_many q xs) s) _ xs (λ s ih h. ground (arith, ih h))
      (selected_HasId q xs),
)

-- A session that is found and not due is not awaited any more.
skip_row :
    (now : ℕ) (x s : LiveTryOnSession) (rows xs : List LiveTryOnSession)
    → is_settleable now s ≡ false
    → All (λ y. y.id ≡ x.id → y ≡ s) xs
    → All (IsAwaited now (x ∷ rows)) xs
    → All (IsAwaited now rows) xs
skip_row now x s rows xs calm same h =
    All-map (λ y. (y.id ≡ x.id → y ≡ s) × IsAwaited now (x ∷ rows) y) _ xs
      (λ y f due. elim (Bool-cases (y.id == x.id)) [
        | inl mine ↦
            let e : y ≡ s = f.0 ((==_iff y.id x.id).0 mine) in cc (ap (is_settleable now) e)
        | inr other ↦ ground (arith, f.1 due)
      ])
      (All-zip (λ y. y.id ≡ x.id → y ≡ s) (IsAwaited now (x ∷ rows)) xs same h)

module _ {limit : ℕ → ℕ} (now : ℕ) (x : LiveTryOnSession) (rows : List LiveTryOnSession)
    (db : Studio) (booked : IsBooked limit db)
    (awaited : All (IsAwaited now (x ∷ rows)) db.sessions) where
  settle_row_found :
      (s : LiveTryOnSession)
      → find (λ y. y.id == x.id) db.sessions ≡ some s
      → All (IsAwaited now rows) (settle_found (some s) now db).sessions
  unfolding settle_found
  settle_row_found s found =
      let at_key : s.id ≡ x.id =
        (==_iff s.id x.id).0 (find_holds (λ y. y.id == x.id) db.sessions {x = s} found) in
      let by_id = find_by-find id_of (λ y. y.id == x.id) db.sessions booked.unique found in
      let there : has_budget s db ≡ true = (covered_found db s by_id booked).0 in
      elim (Bool-cases (
        not (is_reserved s.reservation_status)
        || ltb now s.blocked_until
        || not (has_budget s db))) [
          | inl refused ↦ rw refused (
              skip_row now x s rows db.sessions (ground arith)
                (All-same_key id_of x.id s db.sessions booked.unique found) awaited)
          | inr due ↦ rw due (
              All-update_many (IsAwaited now (x ∷ rows)) (IsAwaited now rows) (λ y. y.id == s.id)
                (settled_session (compute_used_seconds s now)) db.sessions
                (λ y f. elim (Bool-cases (y.id == s.id)) [
                  | inl mine ↦ rw mine (λ e. cc)
                  | inr other ↦ rw other (λ e. ground (arith, f e))
                ])
                awaited)
        ]

  settle_row : All (IsAwaited now rows) (settle_expired_session x.id now db).sessions
  unfolding settle_expired_session settle_found
  settle_row = elim (Option-cases (find (λ y. y.id == x.id) db.sessions)) [
    | inl missing ↦ rw missing (
        All-map (λ y. ((y.id == x.id) ≡ false) × IsAwaited now (x ∷ rows) y) (IsAwaited now rows)
          db.sessions (λ y f due. ground (arith, f.1 due))
          (All-zip _ (IsAwaited now (x ∷ rows)) db.sessions
            (none_of_missing id_of x.id db.sessions missing) awaited))
    | inr (s, found) ↦ rw found (settle_row_found s found)
  ]

settle_each_complete :
    {limit : ℕ → ℕ} (now : ℕ) (rows : List LiveTryOnSession) (db : Studio)
    → IsBooked limit db
    → All (IsAwaited now rows) db.sessions
    → All (λ s. is_settleable now s ≡ false) (settle_each rows now db).sessions
unfolding settle_each
settle_each_complete now [] db booked awaited =
    All-map (IsAwaited now []) _ db.sessions (λ s f. ground (arith, f)) awaited
settle_each_complete now (x ∷ rows) db booked awaited =
    settle_each_complete now rows (settle_expired_session x.id now db)
      (settle-IsBooked now db booked x.id) (settle_row now x rows db booked awaited)

-- A run of the job over booked tables with at most 50 sessions to settle, where live try-on is on,
-- settles them all: none is left that holds seconds beyond its end.
pub reconcile_settles_every :
    {limit : ℕ → ℕ} (policy : LiveTryOnPolicy) (now : ℕ) (db : Studio)
    → IsBooked limit db
    → policy.enabled ≡ true
    → count (is_settleable now) db.sessions ≤ reconcile_batch
    → All (λ s. is_settleable now s ≡ false) (reconcile_expired_sessions policy now db).sessions
unfolding reconcile_expired_sessions
reconcile_settles_every policy now db booked enabled few =
    let due = find_many (is_settleable now) db.sessions in
    let whole =
      take_all reconcile_batch (sort_by_block due)
        (omega (arith, length-sort_by_block (is_settleable now) db.sessions)) in
    rw (enabled, whole)
      (settle_each_complete now (sort_by_block due) db booked (
        All-map (λ s. is_settleable now s ≡ true → HasId due s) _ db.sessions
          (λ s f is_due. any-sort_by_block (λ x. x.id == s.id) due ∙ f is_due)
          (selected_HasId (is_settleable now) db.sessions)))

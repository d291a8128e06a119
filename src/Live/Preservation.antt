-- ===== src/Live/Preservation.antt =====
-- The calls on a session keep the books of live try-on.
use fashion_ai_be.Prelude.{
  ℕ, ◌==◌, ◌≡◌, refl, ◌⊎◌, inl, inr, Bool, true, not, ◌||◌, Option, none, some, List, [], ◌∷◌, ltb,
  take, find_many, find, arith, find_by, find_by-find, Bool-cases, Option-cases, Unique, if_first,
}
use fashion_ai_be.Live.Tables.{
  LiveTryOnSession, LiveTryOnPolicy, Studio, is_reserved, is_active, is_paused, update_session,
  LiveError, Answer, ok, err,
}
use fashion_ai_be.Live.Reserve.{drop_lease}
use fashion_ai_be.Live.Sessions.{
  compute_used_seconds, compute_remaining_seconds, find_session, paused_session, resumed_session,
  ended_session, settled_session, pause_found, pause_session, resume_found, resume_session,
  has_budget, end_found, end_session, settle_found, settle_expired_session, settle_each,
  reconcile_expired_sessions, sort_by_block, reconcile_batch, is_settleable, is_past_pause,
}
use fashion_ai_be.Live.Books.{id_of, IsBooked}
use fashion_ai_be.Live.Updates.{touch-IsBooked}
use fashion_ai_be.Live.Closing.{IsMetered-found, covered_found, close-IsBooked}

-- The session that a call of a customer finds.
find_session-cases :
    (user_id id : ℕ) (db : Studio)
    → Unique id_of db.sessions
    → (find_session user_id id db ≡ none)
      ⊎ ((s : LiveTryOnSession) × (find_session user_id id db ≡ some s)
          × (find_by id_of s.id db.sessions ≡ some s))
find_session-cases user_id id db u = elim (Option-cases (find (λ s. s.id == id) db.sessions)) [
  | inl missing ↦ inl (rw missing refl)
  | inr (s, found) ↦ elim (Bool-cases (s.user_id == user_id)) [
    | inl mine ↦
        inr (s, (rw found (rw mine refl)), find_by-find id_of (λ x. x.id == id) db.sessions u found)
    | inr other ↦ inl (rw found (rw other refl))
  ]
]

module _ {limit : ℕ → ℕ} (policy : LiveTryOnPolicy) (now : ℕ) (db : Studio)
    (booked : IsBooked limit db) where
  pause_found-IsBooked :
      (s : LiveTryOnSession)
      → find_by id_of s.id db.sessions ≡ some s
      → IsBooked limit (pause_found (some s) policy now db).0
  unfolding pause_found
  pause_found-IsBooked s found =
      let m = IsMetered-found db s found booked in
      if_first (IsBooked limit) (not (is_active s.status)) _ _ booked (
        touch-IsBooked db s (paused_session policy now (compute_used_seconds s now)) db.budgets
          db.leases (λ x. refl) found booked (λ k d. refl) (ground arith) refl refl (λ k d. refl)
          (λ k d. omega arith) refl)

  resume_found-IsBooked :
      (s : LiveTryOnSession) (garments : Bool) (token : Option ℕ)
      → find_by id_of s.id db.sessions ≡ some s
      → IsBooked limit (resume_found (some s) policy garments token now db).0
  unfolding resume_found
  resume_found-IsBooked s garments token found =
      if_first (IsBooked limit) (not policy.enabled) _ _ booked (
        if_first (IsBooked limit) (not (is_paused s.status)) _ _ booked (
          if_first (IsBooked limit) (is_past_pause s.pause_expires_at now) _ _ booked (
            if_first (IsBooked limit) (compute_remaining_seconds s now == 0) _ _ booked
              (if_first (IsBooked limit) (not garments) _ _ booked (issued token)))))
    where
      issued :
          (token : Option ℕ)
          → IsBooked limit
              (elim token as (λ _. Studio × Answer ℕ) [
                | none ↦ (db, err LiveError.token_refused)
                | some expires_at ↦ (
                  record db { sessions = update_session s.id (resumed_session now) db.sessions },
                  ok (compute_remaining_seconds s now),
                )
              ]).0
      issued none = booked
      issued (some _) =
          touch-IsBooked db s (resumed_session now) db.budgets db.leases (λ x. refl) found booked
            (λ k d. refl) (IsMetered-found db s found booked) refl refl (λ k d. refl)
            (λ k d. omega arith) refl

  pub pause-IsBooked : (user_id id : ℕ) → IsBooked limit (pause_session policy user_id id now db).0
  unfolding pause_session
  pause-IsBooked user_id id = elim (find_session-cases user_id id db booked.unique) [
    | inl missing ↦ rw missing booked
    | inr (s, mine, found) ↦ rw mine (pause_found-IsBooked s found)
  ]

  pub resume-IsBooked :
      (garments : Bool) (token : Option ℕ) (user_id id : ℕ)
      → IsBooked limit (resume_session policy garments token user_id id now db).0
  unfolding resume_session
  resume-IsBooked garments token user_id id =
      elim (find_session-cases user_id id db booked.unique) [
        | inl missing ↦ rw missing booked
        | inr (s, mine, found) ↦ rw mine (resume_found-IsBooked s garments token found)
      ]

module _ {limit : ℕ → ℕ} (now : ℕ) (db : Studio) (booked : IsBooked limit db) where
  -- An end of a session closes it, where it is open, and otherwise only raises what it has used.
  end_found-IsBooked :
      (s : LiveTryOnSession)
      → find_by id_of s.id db.sessions ≡ some s
      → IsBooked limit (end_found (some s) now db).0
  unfolding end_found
  end_found-IsBooked s found =
      let used = compute_used_seconds s now in
      let m = IsMetered-found db s found booked in
      elim (Bool-cases (is_reserved s.reservation_status)) [
        | inl was_open ↦
            let there : has_budget s db ≡ true = (covered_found db s found booked).0 in
            rw (was_open, there)
              (close-IsBooked db s found booked (ended_session now used) used
                (drop_lease s.user_id s.id db.leases) (λ x. refl) refl refl was_open refl refl
                (ground arith) (ground arith))
        | inr closed ↦ rw closed (
            touch-IsBooked db s (ended_session now used) db.budgets db.leases (λ x. refl) found
              booked (λ k d. refl) (ground arith) refl refl (λ k d. rw closed refl)
              (λ k d. ground arith) refl)
      ]

  settle_found-IsBooked :
      (s : LiveTryOnSession)
      → find_by id_of s.id db.sessions ≡ some s
      → IsBooked limit (settle_found (some s) now db)
  unfolding settle_found
  settle_found-IsBooked s found =
      let used = compute_used_seconds s now in
      let m = IsMetered-found db s found booked in
      elim (Bool-cases (is_reserved s.reservation_status)) [
        | inl was_open ↦
            elim (Bool-cases (
              not (is_reserved s.reservation_status)
              || ltb now s.blocked_until
              || not (has_budget s db))) [
                | inl refused ↦ rw refused booked
                | inr due ↦ rw due (
                    close-IsBooked db s found booked (settled_session used) used
                      (drop_lease s.user_id s.id db.leases) (λ x. refl) refl refl was_open refl refl
                      (ground arith) (ground arith))
              ]
        | inr closed ↦ rw closed booked
      ]

  pub end-IsBooked : (user_id id : ℕ) → IsBooked limit (end_session user_id id now db).0
  unfolding end_session end_found
  end-IsBooked user_id id = elim (find_session-cases user_id id db booked.unique) [
    | inl missing ↦ rw missing booked
    | inr (s, mine, found) ↦ rw mine (end_found-IsBooked s found)
  ]

  pub settle-IsBooked : (id : ℕ) → IsBooked limit (settle_expired_session id now db)
  unfolding settle_expired_session settle_found
  settle-IsBooked id = elim (Option-cases (find (λ s. s.id == id) db.sessions)) [
    | inl missing ↦ rw missing booked
    | inr (s, found) ↦ rw found (
        settle_found-IsBooked s
          (find_by-find id_of (λ x. x.id == id) db.sessions booked.unique found))
  ]

settle_each-IsBooked :
    {limit : ℕ → ℕ} (rows : List LiveTryOnSession) (now : ℕ) (db : Studio)
    → IsBooked limit db
    → IsBooked limit (settle_each rows now db)
unfolding settle_each
settle_each-IsBooked [] now db booked = booked
settle_each-IsBooked (s ∷ ss) now db booked =
    settle_each-IsBooked ss now (settle_expired_session s.id now db)
      (settle-IsBooked now db booked s.id)

pub reconcile-IsBooked :
    {limit : ℕ → ℕ} (policy : LiveTryOnPolicy) (now : ℕ) (db : Studio)
    → IsBooked limit db
    → IsBooked limit (reconcile_expired_sessions policy now db)
unfolding reconcile_expired_sessions
reconcile-IsBooked policy now db booked = elim (Bool-cases policy.enabled) [
  | inl open_now ↦ rw open_now (
      settle_each-IsBooked
        (take reconcile_batch (sort_by_block (find_many (is_settleable now) db.sessions))) now db
        booked)
  | inr shut ↦ rw shut booked
]

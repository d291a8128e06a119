-- ===== src/Live/Admission.antt =====
-- A reservation keeps the books of live try-on, and so does the creation of a session.
use fashion_ai_be.Prelude.{
  ℕ, ◌+◌, ◌-◌, ◌==◌, ◌≤◌, ◌≡◌, refl, inl, inr, min, Bool, true, false, not, ◌&&◌, ◌||◌, Option,
  none, some, ltb, leb, find, count, arith, find_by, Bool-cases, sum_by, ℤ, pos, pos_part, ◌-ℤ◌,
  if_first, if_both,
}
use mathlib.Core.Path.{subst}
use fashion_ai_be.Live.Tables.{
  LiveTryOnSession, LiveTryOnLease, LiveTryOnPolicy, Studio, is_reserved, global_scope, user_scope,
  allocated_of, upsert_budget, Answer, ok, err,
}
use fashion_ai_be.Live.Reserve.{
  Request, remaining_of, new_session, reserve_commit, reserve_session, failed_session,
  issued_session, release_failed_reservation, finish_session, create_session, create_reserved,
  create_new, create_repeated, drop_lease,
}
use fashion_ai_be.Live.Books.{id_of, held_by, IsBooked, any-upsert, any-upsert_self}
use fashion_ai_be.Live.Updates.{touch-IsBooked}
use fashion_ai_be.Live.Closing.{IsMetered-found, covered_found, close-IsBooked}
use fashion_ai_be.Live.Holding.{upsert-IsBooked, commit-IsBooked}

pub record IsLimited (limit : ℕ → ℕ) (policy : LiveTryOnPolicy) (user_id : ℕ) : Type 0 where
  pub user : policy.user_daily_seconds ≤ limit (user_scope user_id)
  pub global : policy.global_daily_seconds ≤ limit global_scope

remaining_value : (l h a : ℕ) (r : ℤ) → r ≡ pos h → pos_part (pos l -ℤ r -ℤ pos a) ≡ l - h - a
unfolding ◌-ℤ◌
remaining_value l h a r e = rw e ground arith

min_le_mid : (a b c : ℕ) → min a (min b c) ≤ b
min_le_mid a b c = omega arith

min_le_last : (a b c : ℕ) → min a (min b c) ≤ c
min_le_last a b c = omega arith

-- Seconds that a day has left stay within its limit.
room_left :
    (l most h a n : ℕ) (r : ℤ)
    → r ≡ pos h
    → n ≤ pos_part (pos l -ℤ r -ℤ pos a)
    → l ≤ most
    → h + a ≤ most
    → h + a + n ≤ most
room_left l most h a n r e le ll within = omega (arith, remaining_value l h a r e)

abbrev IsFresh : Studio → Answer LiveTryOnSession → Type 0
IsFresh db (err e) = Unit {0}
IsFresh db (ok s) =
    (find_by id_of s.id db.sessions ≡ some s)
    × (is_reserved s.reservation_status ≡ true)
    × (s.used_seconds ≡ 0)

abbrev IsOpened : (ℕ → ℕ) → Studio × Answer LiveTryOnSession → Type 0
IsOpened limit x = IsBooked limit x.0 × IsFresh x.0 x.1

new_found :
    (policy : LiveTryOnPolicy) (r : Request) (n : ℕ) (db : Studio)
    → IsFresh (reserve_commit policy r n db) (ok (new_session policy r db.next_id n))
unfolding reserve_commit
new_found policy r n db = (ground arith, refl, refl)

module _ {limit : ℕ → ℕ} (policy : LiveTryOnPolicy) (r : Request)
    (limited : IsLimited limit policy r.user_id) where
  room_of :
      (db : Studio) (n : ℕ)
      → IsBooked limit db
      → n
        ≤ pos_part
            (remaining_of policy.user_daily_seconds (user_scope r.user_id) r.quota_date db.budgets)
      → n ≤ pos_part (remaining_of policy.global_daily_seconds global_scope r.quota_date db.budgets)
      → (k : ℕ) → (k == global_scope || k == user_scope r.user_id) ≡ true
      → sum_by (held_by k r.quota_date) db.sessions + allocated_of k r.quota_date db.budgets + n
        ≤ limit k
  room_of db n b le le₀ k hit = elim (Bool-cases (k == global_scope)) [
    | inl common ↦
        let e : global_scope ≡ k = ground (arith, common) in
        subst
          (λ t.
            sum_by (held_by t r.quota_date) db.sessions + allocated_of t r.quota_date db.budgets + n
            ≤ limit t)
          e
          (room_left policy.global_daily_seconds (limit global_scope) _ _ n _
            (b.held global_scope r.quota_date) le₀ limited.global
            (b.within global_scope r.quota_date))
    | inr own ↦
        let e : user_scope r.user_id ≡ k = ground (arith, own, hit) in
        subst
          (λ t.
            sum_by (held_by t r.quota_date) db.sessions + allocated_of t r.quota_date db.budgets + n
            ≤ limit t)
          e
          (room_left policy.user_daily_seconds (limit (user_scope r.user_id)) _ _ n _
            (b.held (user_scope r.user_id) r.quota_date) le limited.user
            (b.within (user_scope r.user_id) r.quota_date))
  ]

  reserve-IsOpened :
      (db : Studio) → IsBooked limit db → IsOpened limit (reserve_session policy r db)
  unfolding reserve_session
  reserve-IsOpened db booked =
      let scope = user_scope r.user_id in
      let bs =
        upsert_budget global_scope r.quota_date (upsert_budget scope r.quota_date db.budgets) in
      let ready =
        upsert-IsBooked global_scope r.quota_date _
          (upsert-IsBooked scope r.quota_date db booked) in
      let remaining = pos_part (remaining_of policy.user_daily_seconds scope r.quota_date bs) in
      let global_remaining =
        pos_part (remaining_of policy.global_daily_seconds global_scope r.quota_date bs) in
      let seconds = min policy.max_duration_seconds (min remaining global_remaining) in
      if_both (IsOpened limit)
        (leb policy.max_concurrent_sessions (count (λ l. ltb r.now l.expires_at) db.leases)) _ _
        (booked, tt)
        (if_both (IsOpened limit) (remaining == 0) _ _ (booked, tt)
          (if_both (IsOpened limit) (global_remaining == 0) _ _ (booked, tt)
            (if_both (IsOpened limit) (ltb seconds policy.min_session_seconds) _ _ (booked, tt)
              ((
                commit-IsBooked policy r seconds (record db { budgets = bs })
                    (any-upsert scope r.quota_date global_scope r.quota_date _
                      (any-upsert_self scope r.quota_date db.budgets))
                    (any-upsert_self global_scope r.quota_date _) ready
                    (room_of (record db { budgets = bs }) seconds ready (min_le_mid _ _ _)
                      (min_le_last _ _ _)),
                new_found policy r seconds (record db { budgets = bs }),
              )))))

  finish-IsBooked :
      (token : Option ℕ) (now : ℕ) (s : LiveTryOnSession) (db : Studio)
      → IsBooked limit db
      → find_by id_of s.id db.sessions ≡ some s
      → is_reserved s.reservation_status ≡ true
      → s.used_seconds ≡ 0
      → IsBooked limit (finish_session token now s db).0
  unfolding finish_session release_failed_reservation
  finish-IsBooked (some t) now s db booked found was_open unused =
      touch-IsBooked db s (issued_session now) db.budgets db.leases (λ x. refl) found booked
        (λ k d. refl) (IsMetered-found db s found booked) refl refl (λ k d. refl)
        (λ k d. omega arith) refl
  finish-IsBooked none now s db booked found was_open unused =
      let m = IsMetered-found db s found booked in
      let zero_charge : s.allocated_seconds ≡ 0 = omega arith in
      rw (covered_found db s found booked).0 (
        close-IsBooked db s found booked failed_session 0 (drop_lease s.user_id s.id db.leases)
          (λ x. refl) refl refl was_open refl zero_charge (ground arith) (omega arith))

  create_reserved-IsBooked :
      (token : Option ℕ) (x : Studio × Answer LiveTryOnSession)
      → IsOpened limit x
      → IsBooked limit (create_reserved token r.now x).0
  unfolding create_reserved
  create_reserved-IsBooked token (db, err e) h = h.0
  create_reserved-IsBooked token (db, ok s) h =
      finish-IsBooked token r.now s db h.0 h.1.0 h.1.1 h.1.2

  create_new-IsBooked :
      (lease : Option LiveTryOnLease) (garments : Bool) (token : Option ℕ) (db : Studio)
      → IsBooked limit db
      → IsBooked limit (create_new lease policy garments token r db).0
  unfolding create_new
  create_new-IsBooked lease garments token db booked =
      if_first (IsBooked limit) (elim lease [ none ↦ false | some l ↦ ltb r.now l.expires_at ]) _ _
        booked
        (if_first (IsBooked limit) (not garments) _ _ booked (
          create_reserved-IsBooked token (reserve_session policy r db)
            (reserve-IsOpened db booked)))

  create_repeated-IsBooked :
      (existing : Option LiveTryOnSession) (garments : Bool) (token : Option ℕ) (db : Studio)
      → IsBooked limit db
      → IsBooked limit (create_repeated existing policy garments token r db).0
  unfolding create_repeated
  create_repeated-IsBooked none garments token db booked =
      create_new-IsBooked (find (λ l. l.user_id == r.user_id) db.leases) garments token db booked
  create_repeated-IsBooked (some s) garments token db booked = booked

  pub create-IsBooked :
      (garments : Bool) (token : Option ℕ) (db : Studio)
      → IsBooked limit db
      → IsBooked limit (create_session policy garments token r db).0
  unfolding create_session
  create-IsBooked garments token db booked =
      if_first (IsBooked limit) (not policy.enabled) _ _ booked (
        create_repeated-IsBooked
          (find (λ s. s.user_id == r.user_id && s.idempotency_key == r.idempotency_key) db.sessions)
          garments token db booked)

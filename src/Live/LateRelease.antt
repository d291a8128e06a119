-- ===== src/Live/LateRelease.antt =====
-- The request for a token fails after its session was ended: `releaseFailedReservation` in
-- `createSession` of src/modules/try-on/live-try-on.service.ts.
use fashion_ai_be.Prelude.{
  ℕ, ◌<◌, ◌≡◌, refl, ap, ◌∙◌, true, false, some, arith, find_by, sum_by, sum_by-update_by, ℤ, pos,
  ◌-ℤ◌,
}
use mathlib.Core.Path.{subst}
use fashion_ai_be.Live.Tables.{
  LiveTryOnSession, Studio, is_reserved, settle_books, update_session, reserved_of,
}
use fashion_ai_be.Live.Reserve.{drop_lease, failed_session, release_failed_reservation}
use fashion_ai_be.Live.Sessions.{
  compute_used_seconds, ended_session, find_session, has_budget, end_found, end_session,
}
use fashion_ai_be.Live.Books.{id_of, in_scope, held_by, HasBudgets, IsBooked}
use fashion_ai_be.Live.Updates.{find-update_session, any-settle_books, reserved_of-settle_books}
use fashion_ai_be.Live.Preservation.{end-IsBooked}
use fashion_ai_be.Live.Closing.{covered_found}

not_less_held : (h r : ℕ) (x : ℤ) → 0 < r → x ≡ pos h -ℤ pos r → ¬ (x ≡ pos h)
unfolding ◌-ℤ◌
not_less_held h r x lt e f = ground arith

-- The budgets after a release of a session that is no longer open: in the scopes that the session
-- draws on, what they hold is short of what the open sessions reserve by its seconds.
release_closed :
    {limit : ℕ → ℕ} (db : Studio) (s x : LiveTryOnSession) (k d : ℕ)
    → IsBooked limit db
    → HasBudgets db.budgets s
    → find_by id_of s.id db.sessions ≡ some x
    → is_reserved x.reservation_status ≡ false
    → in_scope k d s ≡ true
    → let after = release_failed_reservation s db in
      reserved_of k d after.budgets
      ≡ pos (sum_by (held_by k d) after.sessions) -ℤ pos s.reserved_seconds
unfolding release_failed_reservation
release_closed db s x k d booked covered found closed drawn =
    let rows = update_session s.id failed_session db.sessions in
    let moved =
      sum_by-update_by id_of (held_by k d) failed_session s.id db.sessions booked.unique found in
    let nothing : held_by k d x ≡ 0 = rw closed ground arith in
    let nothing' : held_by k d (failed_session x) ≡ 0 = ground arith in
    let same : sum_by (held_by k d) db.sessions ≡ sum_by (held_by k d) rows =
      omega (arith, moved, nothing, nothing') in
    let taken = rw drawn at (reserved_of-settle_books k d s 0 db.budgets covered) in
    rw covered.0 (taken ∙ ap (λ c. c -ℤ pos s.reserved_seconds) (booked.held k d ∙ ap pos same))

module _ {limit : ℕ → ℕ} (now : ℕ) (db : Studio) (s : LiveTryOnSession) (booked : IsBooked limit db)
    (found : find_by id_of s.id db.sessions ≡ some s)
    (was_open : is_reserved s.reservation_status ≡ true) where
  ended_found : find_session s.user_id s.id db ≡ some s
  ended_found = rw found ground arith

  -- what the end of the open session leaves
  abbrev ended : Studio
  ended = record db {
    sessions = update_session s.id (ended_session now (compute_used_seconds s now)) db.sessions;
    budgets = settle_books s (compute_used_seconds s now) db.budgets;
    leases = drop_lease s.user_id s.id db.leases;
  }

  end_open : (end_session s.user_id s.id now db).0 ≡ ended
  unfolding end_session end_found
  end_open =
      let there : has_budget s db ≡ true = (covered_found db s found booked).0 in
      rw ended_found (rw (was_open, there) refl)

  -- On books that are in order: where the customer ends an open session that has reserved some seconds
  -- while the request for its token still runs, and that request then fails, its seconds are taken from the books a second
  -- time: in each scope that the session draws on, that of its user or that of all users, the budget
  -- of its day holds less than the open sessions have reserved, by just these seconds, and so the
  -- books are no longer in order.
  pub late_release_breaks_books :
      (k d : ℕ)
      → in_scope k d s ≡ true
      → 0 < s.reserved_seconds
      → let after = release_failed_reservation s (end_session s.user_id s.id now db).0 in
        (reserved_of k d after.budgets
          ≡ pos (sum_by (held_by k d) after.sessions) -ℤ pos s.reserved_seconds)
        × ¬ IsBooked limit after
  late_release_breaks_books k d drawn some_seconds =
      let used = compute_used_seconds s now in
      let covered = covered_found db s found booked in
      let rows = λ (k d : ℕ). any-settle_books k d s used db.budgets in
      let booked' : IsBooked limit ended =
        subst (IsBooked limit) end_open (end-IsBooked now db booked s.user_id s.id) in
      let short =
        release_closed {limit = limit} ended s (ended_session now used s) k d booked'
          (rows _ _ ∙ covered.0, rows _ _ ∙ covered.1)
          (find-update_session s (ended_session now used) db.sessions (λ x. refl) found) refl
          drawn in
      rw end_open
        (short, λ after. not_less_held _ s.reserved_seconds _ some_seconds short (after.held k d))

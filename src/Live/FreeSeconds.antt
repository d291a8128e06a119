-- ===== src/Live/FreeSeconds.antt =====
-- A paused session whose seconds were settled: `settleExpiredSession` and `resumeSession` of
-- src/modules/try-on/live-try-on.service.ts.
use fashion_ai_be.Prelude.{
  ℕ, ◌+◌, ◌-◌, ◌/◌, ◌==◌, ◌≤◌, ◌<◌, ◌≡◌, refl, ap, ◌∙◌, true, false, none, some, arith, find_by,
  min, ltb,
}
use mathlib.Core.Option
use fashion_ai_be.Live.Tables.{
  LiveTryOnSession, LiveTryOnSessionStatus, LiveTryOnPolicy, Studio, ok, is_reserved, is_paused,
  settle_books, update_session,
}
use fashion_ai_be.Live.Reserve.{drop_lease}
use fashion_ai_be.Live.Sessions.{
  compute_used_seconds, compute_remaining_seconds, is_past_pause, settled_session, resumed_session,
  ended_session, find_session, has_budget, settle_found, settle_expired_session, resume_found,
  resume_session, end_found, end_session,
}
use fashion_ai_be.Live.Books.{id_of, IsBooked}
use fashion_ai_be.Live.Updates.{find-update_session}
use fashion_ai_be.Live.Closing.{covered_found}

find_own :
    (s : LiveTryOnSession) (db : Studio)
    → find_by id_of s.id db.sessions ≡ some s
    → find_session s.user_id s.id db ≡ some s
find_own s db found = rw found ground arith

module _ {limit : ℕ → ℕ} (policy : LiveTryOnPolicy) (now until token : ℕ) (db : Studio)
    (s : LiveTryOnSession) (booked : IsBooked limit db)
    (found : find_by id_of s.id db.sessions ≡ some s)
    (was_open : is_reserved s.reservation_status ≡ true)
    (paused : s.status ≡ LiveTryOnSessionStatus.paused) (stopped : s.active_started_at ≡ none)
    (may_resume : s.pause_expires_at ≡ some until) (due : s.blocked_until ≤ now)
    (in_time : now < until) (unspent : s.used_seconds < s.reserved_seconds)
    (enabled : policy.enabled ≡ true) where
  abbrev settled_row : LiveTryOnSession
  settled_row = settled_session (compute_used_seconds s now) s

  abbrev settled_db : Studio
  settled_db = record db {
    sessions = update_session s.id (settled_session (compute_used_seconds s now)) db.sessions;
    budgets = settle_books s (compute_used_seconds s now) db.budgets;
    leases = drop_lease s.user_id s.id db.leases;
  }

  settle_paused : settle_expired_session s.id now db ≡ settled_db
  unfolding settle_expired_session settle_found
  settle_paused =
      let there : has_budget s db ≡ true = (covered_found db s found booked).0 in
      let not_before : ltb now s.blocked_until ≡ false = ground arith in
      rw found (rw (was_open, not_before, there) refl)

  settled_found : find_by id_of s.id settled_db.sessions ≡ some settled_row
  settled_found =
      find-update_session s (settled_session (compute_used_seconds s now)) db.sessions (λ x. refl)
        found

  abbrev resumed_db : Studio
  resumed_db = record settled_db {
    sessions = update_session s.id (resumed_session now) settled_db.sessions;
  }

  used_as_before : compute_used_seconds s now ≡ s.used_seconds
  used_as_before = ground arith

  still_paused : is_paused settled_row.status ≡ true
  still_paused = rw paused refl

  some_left : (compute_remaining_seconds settled_row now == 0) ≡ false
  some_left = ground (arith, used_as_before)

  not_past : is_past_pause settled_row.pause_expires_at now ≡ false
  not_past = rw may_resume ground arith

  resume_settled :
      resume_session policy true (some token) s.user_id s.id now settled_db
      ≡ (resumed_db, ok (compute_remaining_seconds settled_row now))
  unfolding resume_session resume_found
  resume_settled =
      rw (find_own settled_row settled_db settled_found)
        (rw (enabled, still_paused, not_past, some_left) refl)

  resumed_found : find_by id_of s.id resumed_db.sessions ≡ some (resumed_session now settled_row)
  resumed_found =
      find-update_session settled_row (resumed_session now) settled_db.sessions (λ x. refl)
        settled_found

  abbrev spent : ℕ → ℕ
  spent later = compute_used_seconds (resumed_session now settled_row) later

  abbrev ended_db : ℕ → Studio
  ended_db later = record resumed_db {
    sessions = update_session s.id (ended_session later (spent later)) resumed_db.sessions;
  }

  end_resumed : (later : ℕ) → (end_session s.user_id s.id later resumed_db).0 ≡ ended_db later
  unfolding end_session end_found
  end_resumed later = rw (find_own (resumed_session now settled_row) resumed_db resumed_found) refl

  -- A paused session with seconds left that the job settles, before the time for resuming it is over,
  -- is still resumed afterwards. Whatever it then runs is put down as used when it ends, and the
  -- budgets stay as the job left them: those seconds are charged to no one.
  pub settled_session_runs_free :
      (later : ℕ)
      → let settled = settle_expired_session s.id now db in
        let resumed = resume_session policy true (some token) s.user_id s.id now settled in
        let final = (end_session s.user_id s.id later resumed.0).0 in
        (resumed.1 ≡ ok (s.reserved_seconds - s.used_seconds))
        × (Option.map (λ x. x.used_seconds) (find_by id_of s.id final.sessions)
            ≡ some (min s.reserved_seconds (s.used_seconds + (later - now + 999) / 1000)))
        × (final.budgets ≡ settled.budgets)
  settled_session_runs_free later =
      let row_spent = ap (Option.map (λ (x : LiveTryOnSession). x.used_seconds)) (
        find-update_session (resumed_session now settled_row) (ended_session later (spent later))
          resumed_db.sessions (λ x. refl) resumed_found) in
      rw (settle_paused, resume_settled, end_resumed later)
        (
          ap ok (ground (arith, used_as_before)),
          row_spent ∙ ap some (ground (arith, used_as_before)),
          refl,
        )

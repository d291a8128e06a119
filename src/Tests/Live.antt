-- ===== src/Tests/Live.antt =====
-- Live try-on: a day on which one customer's session was paused late.
use fashion_ai_be.Prelude.{
  ℕ, ◌+◌, ◌-◌, ◌/◌, ◌==◌, ◌≡◌, refl, true, false, none, some, [], ◌∷◌, arith, All, min, find_by,
  sum_by, pos, ◌-ℤ◌, if◌then◌else◌,
}
use mathlib.Core.Option
use fashion_ai_be.Live.Tables.{
  LiveTryOnSessionStatus, LiveTryOnCredentialStatus, LiveTryOnReservationStatus, LiveTryOnSession,
  Studio, LiveTryOnPolicy, ok, reserved_of, global_scope,
}
use fashion_ai_be.Live.Reserve.{Request, release_failed_reservation}
use fashion_ai_be.Live.Sessions.{
  settle_expired_session, resume_session, end_session, is_settleable, reconcile_expired_sessions,
}
use fashion_ai_be.Live.Books.{id_of, held_by, IsBooked}
use fashion_ai_be.Live.Admission.{IsLimited}
use fashion_ai_be.Live.History.{creating, reconciling, start, next, run_live, LiveReaches-IsBooked}
use fashion_ai_be.Live.Drained.{reconcile_settles_every}
use fashion_ai_be.Live.FreeSeconds.{settled_session_runs_free}
use fashion_ai_be.Live.LateRelease.{late_release_breaks_books}

abbrev policy : LiveTryOnPolicy
policy = record {
  enabled = true;
  max_duration_seconds = 60;
  token_ttl_seconds = 60;
  grace_seconds = 10;
  user_daily_seconds = 300;
  global_daily_seconds = 1000;
  max_concurrent_sessions = 5;
  pause_timeout_seconds = 30;
  min_session_seconds = 5;
}

abbrev day_limit : ℕ → ℕ
day_limit k = if k == 0 then 1000 else 300

abbrev paused_row : LiveTryOnSession
paused_row = record {
  id = 1;
  user_id = 7;
  status = LiveTryOnSessionStatus.paused;
  credential_status = LiveTryOnCredentialStatus.issued;
  reservation_status = LiveTryOnReservationStatus.reserved;
  idempotency_key = 3;
  idempotency_body_hash = 4;
  quota_date = 9;
  reserved_seconds = 60;
  allocated_seconds = 0;
  used_seconds = 10;
  active_started_at = none;
  pause_expires_at = some 170000;
  blocked_until = 160000;
  revision = 2;
}

abbrev fresh_row : LiveTryOnSession
fresh_row = record paused_row {
  status = LiveTryOnSessionStatus.active;
  credential_status = LiveTryOnCredentialStatus.issuing;
  used_seconds = 0;
  pause_expires_at = none;
}

abbrev studio_of : LiveTryOnSession → Studio
studio_of s = record {
  sessions = s ∷ [];
  budgets =
      record { scope_key = 8; date = 9; reserved_seconds = pos 60; allocated_seconds = 0 }
      ∷ record { scope_key = 0; date = 9; reserved_seconds = pos 60; allocated_seconds = 0 }
      ∷ [];
  leases = record { user_id = 7; session_id = 1; expires_at = 160000 } ∷ [];
  next_id = 2;
}

paused-IsBooked : IsBooked day_limit (studio_of paused_row)
paused-IsBooked = record {
  unique = ground arith;
  below = ground arith;
  covered = ground arith;
  metered = ground arith;
  held = λ k d. ground arith;
  charged = λ k d. ground arith;
  within = λ k d. ground arith;
}

fresh-IsBooked : IsBooked day_limit (studio_of fresh_row)
fresh-IsBooked = record {
  unique = ground arith;
  below = ground arith;
  covered = ground arith;
  metered = ground arith;
  held = λ k d. ground arith;
  charged = λ k d. ground arith;
  within = λ k d. ground arith;
}

limited : (user_id : ℕ) → IsLimited day_limit policy user_id
limited user_id = record { user = ground arith; global = ground arith }

abbrev request : Request
request = record { user_id = 8; idempotency_key = 5; body_hash = 6; quota_date = 9; now = 1000 }

ledger_example : IsBooked day_limit (
    run_live
      (λ u. policy)
      (reconciling policy 170000)
      (run_live (λ u. policy) (creating true (some 2000) request) (studio_of paused_row)))
ledger_example =
    LiveReaches-IsBooked (λ u. policy) limited paused-IsBooked
      (next (next start (creating true (some 2000) request)) (reconciling policy 170000))

settles_example :
    All
      (λ s. is_settleable 160000 s ≡ false)
      (reconcile_expired_sessions policy 160000 (studio_of paused_row)).sessions
settles_example =
    reconcile_settles_every {limit = day_limit} policy 160000 (studio_of paused_row) paused-IsBooked
      refl (ground arith)

free_example :
    let settled = settle_expired_session 1 160000 (studio_of paused_row) in
    let resumed = resume_session policy true (some 1) 7 1 160000 settled in
    let final = (end_session 7 1 190000 resumed.0).0 in
    (resumed.1 ≡ ok (60 - 10))
    × (Option.map (λ x. x.used_seconds) (find_by id_of 1 final.sessions)
        ≡ some (min 60 (10 + (190000 - 160000 + 999) / 1000)))
    × (final.budgets ≡ settled.budgets)
free_example =
    settled_session_runs_free policy 160000 170000 1 (studio_of paused_row) paused_row
      paused-IsBooked refl refl refl refl refl (omega arith) (omega arith) (omega arith) refl 190000

late_release_example :
    let after =
      release_failed_reservation fresh_row (end_session 7 1 5000 (studio_of fresh_row)).0 in
    (reserved_of global_scope fresh_row.quota_date after.budgets
      ≡ pos (sum_by (held_by global_scope fresh_row.quota_date) after.sessions)
        -ℤ pos fresh_row.reserved_seconds)
    × ¬ IsBooked day_limit after
late_release_example =
    late_release_breaks_books 5000 (studio_of fresh_row) fresh_row fresh-IsBooked refl refl
      global_scope fresh_row.quota_date refl (omega arith)

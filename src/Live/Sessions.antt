-- ===== src/Live/Sessions.antt =====
-- `pauseSession`, `resumeSession`, `endSession`, `settleExpiredSession` and
-- `reconcileExpiredSessions` of src/modules/try-on/live-try-on.service.ts. Each call reads the clock
-- once; `token` and `garments` as in the creation of a session.
use fashion_ai_be.Prelude.{
  ℕ, ◌+◌, ◌-◌, ◌*◌, ◌/◌, ◌==◌, min, leb, ltb, Bool, false, not, ◌&&◌, ◌||◌, Option, none, some,
  List, [], ◌∷◌, any, find, find_many, take, if◌then◌else◌,
}
use fashion_ai_be.Live.Tables.{
  LiveTryOnSessionStatus, LiveTryOnCredentialStatus, LiveTryOnReservationStatus, LiveTryOnSession,
  Studio, LiveTryOnPolicy, LiveError, Answer, ok, err, is_active, is_paused, is_reserved,
  is_issuing, is_issue_failed, user_scope, is_scope, settle_books, update_session,
}
use fashion_ai_be.Live.Reserve.{drop_lease}

-- `Math.ceil(ms / 1000)` of the time since the start, 0 where the session does not run
abbrev pub active_seconds : Option ℕ → ℕ → ℕ
active_seconds none now = 0
active_seconds (some started) now = (now - started + 999) / 1000

-- `computeUsedSeconds`
abbrev pub compute_used_seconds : LiveTryOnSession → ℕ → ℕ
compute_used_seconds s now =
    min s.reserved_seconds (s.used_seconds + active_seconds s.active_started_at now)

-- `computeRemainingSeconds`
abbrev pub compute_remaining_seconds : LiveTryOnSession → ℕ → ℕ
compute_remaining_seconds s now = s.reserved_seconds - compute_used_seconds s now

abbrev pub own_session : ℕ → Option LiveTryOnSession → Option LiveTryOnSession
own_session user_id none = none
own_session user_id (some s) = if s.user_id == user_id then some s else none

-- a session that is not there and one of another customer are both refused as not found
abbrev pub find_session : ℕ → ℕ → Studio → Option LiveTryOnSession
find_session user_id id db = own_session user_id (find (λ s. s.id == id) db.sessions)

abbrev pub paused_session : LiveTryOnPolicy → ℕ → ℕ → LiveTryOnSession → LiveTryOnSession
paused_session policy now used s = record s {
  status = LiveTryOnSessionStatus.paused;
  used_seconds = used;
  active_started_at = none;
  pause_expires_at = some (now + policy.pause_timeout_seconds * 1000);
  revision = s.revision + 1;
}

unfoldable pub pause_found :
    Option LiveTryOnSession → LiveTryOnPolicy → ℕ → Studio → Studio × Answer ℕ
pause_found none policy now db = (db, err LiveError.live_session_not_found)
pause_found (some s) policy now db =
    if not (is_active s.status) then (db, ok (compute_remaining_seconds s now)) else (
      record db {
        sessions =
            update_session s.id (paused_session policy now (compute_used_seconds s now))
              db.sessions;
      },
      ok (s.reserved_seconds - compute_used_seconds s now),
    )

-- `pauseSession`
unfoldable pub pause_session : LiveTryOnPolicy → ℕ → ℕ → ℕ → Studio → Studio × Answer ℕ
unfolding pause_found
pause_session policy user_id id now db = pause_found (find_session user_id id db) policy now db

abbrev pub is_past_pause : Option ℕ → ℕ → Bool
is_past_pause none now = false
is_past_pause (some at) now = leb at now

abbrev pub resumed_session : ℕ → LiveTryOnSession → LiveTryOnSession
resumed_session now s = record s {
  status = LiveTryOnSessionStatus.active;
  credential_status = LiveTryOnCredentialStatus.issued;
  active_started_at = some now;
  revision = s.revision + 1;
}

unfoldable pub resume_found :
    Option LiveTryOnSession → LiveTryOnPolicy → Bool → Option ℕ → ℕ → Studio → Studio × Answer ℕ
resume_found none policy garments token now db = (db, err LiveError.live_session_not_found)
resume_found (some s) policy garments token now db =
    if not policy.enabled
    then (db, err LiveError.live_tryon_disabled)
    else if not (is_paused s.status)
    then (db, err LiveError.live_session_not_paused)
    else if is_past_pause s.pause_expires_at now
    then (db, err LiveError.live_pause_expired)
    else if compute_remaining_seconds s now == 0
    then (db, err LiveError.live_session_exhausted)
    else if not garments
    then (db, err LiveError.garment_refused)
    else elim token [
      | none ↦ (db, err LiveError.token_refused)
      | some expires_at ↦ (
        record db { sessions = update_session s.id (resumed_session now) db.sessions },
        ok (compute_remaining_seconds s now),
      )
    ]

-- `resumeSession`
unfoldable pub resume_session :
    LiveTryOnPolicy → Bool → Option ℕ → ℕ → ℕ → ℕ → Studio → Studio × Answer ℕ
unfolding resume_found
resume_session policy garments token user_id id now db =
    resume_found (find_session user_id id db) policy garments token now db

abbrev pub has_budget : LiveTryOnSession → Studio → Bool
has_budget s db = any (is_scope (user_scope s.user_id) s.quota_date) db.budgets

abbrev pub ended_session : ℕ → ℕ → LiveTryOnSession → LiveTryOnSession
ended_session now used s = record s {
  status = LiveTryOnSessionStatus.ended;
  reservation_status = LiveTryOnReservationStatus.allocated;
  used_seconds = used;
  allocated_seconds = used;
  active_started_at = none;
  blocked_until = now;
  revision = s.revision + 1;
}

-- what `endSession` writes for the session that it read: the row first, then the books in a
-- transaction of their own
unfoldable pub end_found : Option LiveTryOnSession → ℕ → Studio → Studio × Answer ℕ
end_found none now db = (db, err LiveError.live_session_not_found)
end_found (some s) now db =
    let used = compute_used_seconds s now in
    let db₁ = record db { sessions = update_session s.id (ended_session now used) db.sessions } in
    if not (is_reserved s.reservation_status)
    then (db₁, ok (s.reserved_seconds - used))
    else if not (has_budget s db)
    then (db₁, err LiveError.record_not_found)
    else (
      record db₁ {
        budgets = settle_books s used db.budgets;
        leases = drop_lease s.user_id s.id db.leases;
      },
      ok (s.reserved_seconds - used),
    )

-- `endSession`
unfoldable pub end_session : ℕ → ℕ → ℕ → Studio → Studio × Answer ℕ
end_session user_id id now db = end_found (find_session user_id id db) now db

abbrev pub settled_session : ℕ → LiveTryOnSession → LiveTryOnSession
settled_session used s = record s {
  status = if is_active s.status then LiveTryOnSessionStatus.expired else s.status;
  credential_status =
      if is_issuing s.credential_status
      then LiveTryOnCredentialStatus.issue_unknown
      else s.credential_status;
  reservation_status = LiveTryOnReservationStatus.allocated;
  allocated_seconds = used;
  used_seconds = used;
  active_started_at = none;
}

unfoldable pub settle_found : Option LiveTryOnSession → ℕ → Studio → Studio
settle_found none now db = db
settle_found (some s) now db =
    if not (is_reserved s.reservation_status) || ltb now s.blocked_until || not (has_budget s db)
    then db
    else record db {
      sessions = update_session s.id (settled_session (compute_used_seconds s now)) db.sessions;
      budgets = settle_books s (compute_used_seconds s now) db.budgets;
      leases = drop_lease s.user_id s.id db.leases;
    }

-- `settleExpiredSession`
unfoldable pub settle_expired_session : ℕ → ℕ → Studio → Studio
settle_expired_session id now db = settle_found (find (λ s. s.id == id) db.sessions) now db

-- the condition of the rows that the job reads
abbrev pub is_settleable : ℕ → LiveTryOnSession → Bool
is_settleable now s =
    is_reserved s.reservation_status
    && leb s.blocked_until now
    && not (is_issue_failed s.credential_status)

unfoldable pub settle_each : List LiveTryOnSession → ℕ → Studio → Studio
settle_each [] now db = db
settle_each (s ∷ ss) now db = settle_each ss now (settle_expired_session s.id now db)

abbrev pub reconcile_batch : ℕ
reconcile_batch = 50

-- `orderBy: { blockedUntil: 'asc' }`
unfoldable pub insert_by_block : LiveTryOnSession → List LiveTryOnSession → List LiveTryOnSession
insert_by_block s [] = s ∷ []
insert_by_block s (t ∷ ts) =
    let rest = insert_by_block s ts in
    if leb s.blocked_until t.blocked_until then s ∷ t ∷ ts else t ∷ rest

unfoldable pub sort_by_block : List LiveTryOnSession → List LiveTryOnSession
unfolding insert_by_block
sort_by_block [] = []
sort_by_block (s ∷ ss) = insert_by_block s (sort_by_block ss)

-- `reconcileExpiredSessions`, with the transactions of one run in the order of the rows
unfoldable pub reconcile_expired_sessions : LiveTryOnPolicy → ℕ → Studio → Studio
unfolding settle_each
reconcile_expired_sessions policy now db =
    if not policy.enabled
    then db
    else settle_each
        (take reconcile_batch (sort_by_block (find_many (is_settleable now) db.sessions))) now db

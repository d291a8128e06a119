-- ===== src/Live/Reserve.antt =====
-- `reserveSession`, `releaseFailedReservation` and `createSession` of
-- src/modules/try-on/live-try-on.service.ts. Each call reads the clock once. `garments` is what
-- `resolveLiveCombo` answers, `token` what the provider answers to the request for a token: the
-- moment the token expires, or nothing where the request fails.
use fashion_ai_be.Prelude.{
  ℕ, ◌+◌, ◌*◌, ◌==◌, min, leb, ltb, Bool, false, not, ◌&&◌, Option, none, some, List, ◌∷◌, any,
  find, count, update_many, delete_many, ℤ, pos, pos_part, ◌-ℤ◌, if◌then◌else◌,
}
use fashion_ai_be.Live.Tables.{
  LiveTryOnSessionStatus, LiveTryOnCredentialStatus, LiveTryOnReservationStatus, LiveTryOnSession,
  LiveTryOnBudget, LiveTryOnLease, Studio, LiveTryOnPolicy, LiveError, Answer, ok, err, is_issuing,
  global_scope, user_scope, is_scope, reserved_of, allocated_of, upsert_budget, hold_seconds,
  settle_books, update_session,
}

-- what a day has left
abbrev pub remaining_of : ℕ → ℕ → ℕ → List LiveTryOnBudget → ℤ
remaining_of limit k d bs = pos limit -ℤ reserved_of k d bs -ℤ pos (allocated_of k d bs)

-- the arguments of the reservation
pub record Request : Type 0 where
  pub user_id : ℕ
  pub idempotency_key : ℕ
  pub body_hash : ℕ
  pub quota_date : ℕ
  pub now : ℕ

abbrev pub blocked_until_of : LiveTryOnPolicy → ℕ → ℕ
blocked_until_of policy now =
    now
    + (policy.token_ttl_seconds + policy.max_duration_seconds + policy.grace_seconds
        + policy.pause_timeout_seconds)
      * 1000

abbrev pub new_session : LiveTryOnPolicy → Request → ℕ → ℕ → LiveTryOnSession
new_session policy r id seconds = record {
  id = id;
  user_id = r.user_id;
  status = LiveTryOnSessionStatus.active;
  credential_status = LiveTryOnCredentialStatus.issuing;
  reservation_status = LiveTryOnReservationStatus.reserved;
  idempotency_key = r.idempotency_key;
  idempotency_body_hash = r.body_hash;
  quota_date = r.quota_date;
  reserved_seconds = seconds;
  allocated_seconds = 0;
  used_seconds = 0;
  active_started_at = none;
  pause_expires_at = none;
  blocked_until = blocked_until_of policy r.now;
  revision = 1;
}

-- `liveTryOnLease.upsert`, one lease for each user
abbrev pub put_lease : ℕ → ℕ → ℕ → List LiveTryOnLease → List LiveTryOnLease
put_lease user_id session_id expires_at leases =
    if any (λ l. l.user_id == user_id) leases
    then update_many (λ l. l.user_id == user_id)
        (λ l. record l { session_id = session_id; expires_at = expires_at }) leases
    else record { user_id = user_id; session_id = session_id; expires_at = expires_at } ∷ leases

-- the writes of an admitted reservation
unfoldable pub reserve_commit : LiveTryOnPolicy → Request → ℕ → Studio → Studio
reserve_commit policy r seconds db = record {
  sessions = new_session policy r db.next_id seconds ∷ db.sessions;
  budgets =
      hold_seconds global_scope r.quota_date seconds
        (hold_seconds (user_scope r.user_id) r.quota_date seconds db.budgets);
  leases = put_lease r.user_id db.next_id (blocked_until_of policy r.now) db.leases;
  next_id = db.next_id + 1;
}

-- `reserveSessionTx`; the two upserts of budgets are undone with a refused transaction
unfoldable pub reserve_session :
    LiveTryOnPolicy → Request → Studio → Studio × Answer LiveTryOnSession
reserve_session policy r db =
    let scope = user_scope r.user_id in
    let bs =
      upsert_budget global_scope r.quota_date (upsert_budget scope r.quota_date db.budgets) in
    let remaining = pos_part (remaining_of policy.user_daily_seconds scope r.quota_date bs) in
    let global_remaining =
      pos_part (remaining_of policy.global_daily_seconds global_scope r.quota_date bs) in
    let seconds = min policy.max_duration_seconds (min remaining global_remaining) in
    if leb policy.max_concurrent_sessions (count (λ l. ltb r.now l.expires_at) db.leases)
    then (db, err LiveError.live_concurrency_exceeded)
    else if remaining == 0
    then (db, err LiveError.live_quota_exceeded)
    else if global_remaining == 0
    then (db, err LiveError.live_global_budget_exceeded)
    else if ltb seconds policy.min_session_seconds
    then (db, err LiveError.live_session_budget_too_low)
    else (
      reserve_commit policy r seconds (record db { budgets = bs }),
      ok (new_session policy r db.next_id seconds),
    )

abbrev pub failed_session : LiveTryOnSession → LiveTryOnSession
failed_session s = record s {
  credential_status = LiveTryOnCredentialStatus.issue_failed;
  reservation_status = LiveTryOnReservationStatus.released;
  status = LiveTryOnSessionStatus.failed;
}

-- `liveTryOnLease.deleteMany({ where: { userId, sessionId } })`
abbrev pub drop_lease : ℕ → ℕ → List LiveTryOnLease → List LiveTryOnLease
drop_lease user_id session_id =
    delete_many (λ l. l.user_id == user_id && l.session_id == session_id)

-- `releaseFailedReservation`; an update of a budget that is not there fails
unfoldable pub release_failed_reservation : LiveTryOnSession → Studio → Studio
release_failed_reservation s db =
    if any (is_scope (user_scope s.user_id) s.quota_date) db.budgets
    then record db {
      sessions = update_session s.id failed_session db.sessions;
      budgets = settle_books s 0 db.budgets;
      leases = drop_lease s.user_id s.id db.leases;
    }
    else db

abbrev pub issued_session : ℕ → LiveTryOnSession → LiveTryOnSession
issued_session now s = record s {
  credential_status = LiveTryOnCredentialStatus.issued;
  active_started_at = some now;
}

-- what follows the request for a token
unfoldable pub finish_session :
    Option ℕ → ℕ → LiveTryOnSession → Studio → Studio × Answer LiveTryOnSession
finish_session (some token_expires_at) now s db =
    (record db { sessions = update_session s.id (issued_session now) db.sessions }, ok s)
finish_session none now s db = (
  release_failed_reservation s db,
  err (
      if any (is_scope (user_scope s.user_id) s.quota_date) db.budgets
      then LiveError.token_refused
      else LiveError.record_not_found),
)

unfoldable pub create_reserved :
    Option ℕ → ℕ → Studio × Answer LiveTryOnSession → Studio × Answer LiveTryOnSession
create_reserved token now (db, err e) = (db, err e)
create_reserved token now (db, ok s) = finish_session token now s db

unfoldable pub create_new :
    Option LiveTryOnLease
    → LiveTryOnPolicy
    → Bool
    → Option ℕ
    → Request
    → Studio
    → Studio × Answer LiveTryOnSession
unfolding create_reserved
create_new lease policy garments token r db =
    if elim lease [ none ↦ false | some l ↦ ltb r.now l.expires_at ]
    then (db, err LiveError.live_session_active)
    else if not garments
    then (db, err LiveError.garment_refused)
    else create_reserved token r.now (reserve_session policy r db)

unfoldable pub create_repeated :
    Option LiveTryOnSession
    → LiveTryOnPolicy
    → Bool
    → Option ℕ
    → Request
    → Studio
    → Studio × Answer LiveTryOnSession
unfolding create_new
create_repeated none policy garments token r db =
    create_new (find (λ l. l.user_id == r.user_id) db.leases) policy garments token r db
create_repeated (some s) policy garments token r db = (
  db,
  err (
      if not (s.idempotency_body_hash == r.body_hash)
      then LiveError.idempotency_body_mismatch
      else if is_issuing s.credential_status
      then LiveError.session_pending
      else LiveError.session_already_issued),
)

-- `createSession`
unfoldable pub create_session :
    LiveTryOnPolicy → Bool → Option ℕ → Request → Studio → Studio × Answer LiveTryOnSession
unfolding create_repeated
create_session policy garments token r db =
    if not policy.enabled
    then (db, err LiveError.live_tryon_disabled)
    else create_repeated
        (find (λ s. s.user_id == r.user_id && s.idempotency_key == r.idempotency_key) db.sessions)
        policy garments token r db

-- ===== src/Live/Tables.antt =====
-- The tables of live try-on in prisma/schema.prisma and the policy that
-- src/modules/try-on/live-try-on.service.ts reads. What a session shows, its garments and the raw
-- answer of the provider, is left out. Seconds of a budget are an integer column.
use fashion_ai_be.Prelude.{
  ℕ, suc, ◌+◌, ◌==◌, Bool, true, false, ◌&&◌, Option, none, some, List, ◌∷◌, any, find, update_many,
  ℤ, pos, ◌+ℤ◌, ◌-ℤ◌, if◌then◌else◌,
}

pub data LiveTryOnSessionStatus : Type 0 where
  active pausing paused resuming ending ended expired failed : LiveTryOnSessionStatus

pub data LiveTryOnCredentialStatus : Type 0 where
  issuing issued issue_unknown issue_failed : LiveTryOnCredentialStatus

pub data LiveTryOnReservationStatus : Type 0 where
  reserved allocated released : LiveTryOnReservationStatus

pub record LiveTryOnSession : Type 0 where
  pub id : ℕ
  pub user_id : ℕ
  pub status : LiveTryOnSessionStatus
  pub credential_status : LiveTryOnCredentialStatus
  pub reservation_status : LiveTryOnReservationStatus
  pub idempotency_key : ℕ
  pub idempotency_body_hash : ℕ
  pub quota_date : ℕ
  pub reserved_seconds : ℕ
  pub allocated_seconds : ℕ
  pub used_seconds : ℕ
  pub active_started_at : Option ℕ
  pub pause_expires_at : Option ℕ
  pub blocked_until : ℕ
  pub revision : ℕ

pub record LiveTryOnBudget : Type 0 where
  pub scope_key : ℕ
  pub date : ℕ
  pub reserved_seconds : ℤ
  pub allocated_seconds : ℕ

pub record LiveTryOnLease : Type 0 where
  pub user_id : ℕ
  pub session_id : ℕ
  pub expires_at : ℕ

pub record Studio : Type 0 where
  pub sessions : List LiveTryOnSession
  pub budgets : List LiveTryOnBudget
  pub leases : List LiveTryOnLease
  pub next_id : ℕ

-- `LiveTryOnPolicy`, with the configured minimum of a session; for a customer whose plan is past,
-- `getEligibility` answers as for a policy that is not enabled
pub record LiveTryOnPolicy : Type 0 where
  pub enabled : Bool
  pub max_duration_seconds : ℕ
  pub token_ttl_seconds : ℕ
  pub grace_seconds : ℕ
  pub user_daily_seconds : ℕ
  pub global_daily_seconds : ℕ
  pub max_concurrent_sessions : ℕ
  pub pause_timeout_seconds : ℕ
  pub min_session_seconds : ℕ

-- The `code` of the exceptions.
pub data LiveError : Type 0 where
  live_tryon_disabled idempotency_body_mismatch session_pending session_already_issued : LiveError
  live_session_active live_concurrency_exceeded live_quota_exceeded : LiveError
  live_global_budget_exceeded live_session_budget_too_low : LiveError
  live_session_not_found live_session_not_paused live_pause_expired live_session_exhausted :
      LiveError
  garment_refused token_refused record_not_found : LiveError

pub data Answer {ℓ} (A : Type ℓ) : Type ℓ where
  ok : A → Answer A
  err : LiveError → Answer A

abbrev pub is_active : LiveTryOnSessionStatus → Bool
is_active LiveTryOnSessionStatus.active = true
is_active _ = false

abbrev pub is_paused : LiveTryOnSessionStatus → Bool
is_paused LiveTryOnSessionStatus.paused = true
is_paused _ = false

abbrev pub is_reserved : LiveTryOnReservationStatus → Bool
is_reserved LiveTryOnReservationStatus.reserved = true
is_reserved _ = false

abbrev pub is_issuing : LiveTryOnCredentialStatus → Bool
is_issuing LiveTryOnCredentialStatus.issuing = true
is_issuing _ = false

abbrev pub is_issue_failed : LiveTryOnCredentialStatus → Bool
is_issue_failed LiveTryOnCredentialStatus.issue_failed = true
is_issue_failed _ = false

-- the scope keys `global` and `user:<id>`
abbrev pub global_scope : ℕ
global_scope = 0

abbrev pub user_scope : ℕ → ℕ
user_scope user_id = suc user_id

-- `scopeKey_date`
abbrev pub is_scope : ℕ → ℕ → LiveTryOnBudget → Bool
is_scope k d b = b.scope_key == k && b.date == d

abbrev pub reserved_column : Option LiveTryOnBudget → ℤ
reserved_column none = pos 0
reserved_column (some b) = b.reserved_seconds

abbrev pub allocated_column : Option LiveTryOnBudget → ℕ
allocated_column none = 0
allocated_column (some b) = b.allocated_seconds

-- the columns of the budget of a scope and a day, 0 where there is none
abbrev pub reserved_of : ℕ → ℕ → List LiveTryOnBudget → ℤ
reserved_of k d bs = reserved_column (find (is_scope k d) bs)

abbrev pub allocated_of : ℕ → ℕ → List LiveTryOnBudget → ℕ
allocated_of k d bs = allocated_column (find (is_scope k d) bs)

-- `upsert` that creates an empty budget and updates nothing
unfoldable pub upsert_budget : ℕ → ℕ → List LiveTryOnBudget → List LiveTryOnBudget
upsert_budget k d bs =
    if any (is_scope k d) bs
    then bs
    else record { scope_key = k; date = d; reserved_seconds = pos 0; allocated_seconds = 0 } ∷ bs

-- `reservedSeconds: { increment }`
unfoldable pub hold_seconds : ℕ → ℕ → ℕ → List LiveTryOnBudget → List LiveTryOnBudget
hold_seconds k d n =
    update_many (is_scope k d) (λ b. record b { reserved_seconds = b.reserved_seconds +ℤ pos n })

-- `reservedSeconds: { decrement }, allocatedSeconds: { increment }`
unfoldable pub settle_seconds : ℕ → ℕ → ℕ → ℕ → List LiveTryOnBudget → List LiveTryOnBudget
settle_seconds k d n used = update_many (is_scope k d) (λ b. record b {
  reserved_seconds = b.reserved_seconds -ℤ pos n;
  allocated_seconds = b.allocated_seconds + used;
})

-- the seconds of a session, taken from what is held and put down as used
unfoldable pub settle_books : LiveTryOnSession → ℕ → List LiveTryOnBudget → List LiveTryOnBudget
settle_books s used bs =
    settle_seconds global_scope s.quota_date s.reserved_seconds used
      (settle_seconds (user_scope s.user_id) s.quota_date s.reserved_seconds used bs)

-- an update of the session of an id
abbrev pub update_session :
    ℕ → (LiveTryOnSession → LiveTryOnSession) → List LiveTryOnSession → List LiveTryOnSession
update_session k f = update_many (λ s. s.id == k) f

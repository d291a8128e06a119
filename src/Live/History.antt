-- ===== src/Live/History.antt =====
-- Every sequence of calls on the live sessions, and of runs of the job that settles them.
use fashion_ai_be.Prelude.{ℕ, Bool, Option}
use fashion_ai_be.Live.Tables.{LiveTryOnPolicy, Studio}
use fashion_ai_be.Live.Reserve.{Request, create_session}
use fashion_ai_be.Live.Sessions.{
  pause_session, resume_session, end_session, reconcile_expired_sessions,
}
use fashion_ai_be.Live.Books.{IsBooked}
use fashion_ai_be.Live.Preservation.{
  pause-IsBooked, resume-IsBooked, end-IsBooked, reconcile-IsBooked,
}
use fashion_ai_be.Live.Admission.{IsLimited, create-IsBooked}

-- A call with its arguments and with what the provider and the catalogue answer to it.
pub data LiveCall : Type 0 where
  creating : Bool → Option ℕ → Request → LiveCall
  pausing : ℕ → ℕ → ℕ → LiveCall
  resuming : Bool → Option ℕ → ℕ → ℕ → ℕ → LiveCall
  ending : ℕ → ℕ → ℕ → LiveCall
  reconciling : LiveTryOnPolicy → ℕ → LiveCall

-- `policy` is the policy of each customer's plan.
module _ (policy : ℕ → LiveTryOnPolicy) where
  unfoldable pub run_live : LiveCall → Studio → Studio
  run_live (creating garments token r) db =
      (create_session (policy r.user_id) garments token r db).0
  run_live (pausing user_id id now) db = (pause_session (policy user_id) user_id id now db).0
  run_live (resuming garments token user_id id now) db =
      (resume_session (policy user_id) garments token user_id id now db).0
  run_live (ending user_id id now) db = (end_session user_id id now db).0
  run_live (reconciling any_policy now) db = reconcile_expired_sessions any_policy now db

-- The states that calls lead to, one after the other.
pub data LiveReaches (policy : ℕ → LiveTryOnPolicy) (db : Studio) : Studio → Type 0 where
  start : LiveReaches policy db db
  next :
      {db' : Studio}
      → LiveReaches policy db db'
      → (call : LiveCall) → LiveReaches policy db (run_live policy call db')

module _ {limit : ℕ → ℕ} (policy : ℕ → LiveTryOnPolicy)
    (limited : (user_id : ℕ) → IsLimited limit (policy user_id) user_id) where
  run_live-IsBooked :
      (call : LiveCall) (db : Studio) → IsBooked limit db → IsBooked limit (run_live policy call db)
  unfolding run_live
  run_live-IsBooked (creating garments token r) db booked =
      create-IsBooked (policy r.user_id) r (limited r.user_id) garments token db booked
  run_live-IsBooked (pausing user_id id now) db booked =
      pause-IsBooked (policy user_id) now db booked user_id id
  run_live-IsBooked (resuming garments token user_id id now) db booked =
      resume-IsBooked (policy user_id) now db booked garments token user_id id
  run_live-IsBooked (ending user_id id now) db booked = end-IsBooked now db booked user_id id
  run_live-IsBooked (reconciling any_policy now) db booked =
      reconcile-IsBooked any_policy now db booked

  -- Whatever calls are made one after the other on booked tables, with any arguments and answers of
  -- the provider, where no policy asks for more than the limits of the days: each budget holds what
  -- the open sessions reserved, has charged no more than the sessions used, and both together stay
  -- within the limit of its scope; and no session uses more than it reserved.
  pub LiveReaches-IsBooked :
      {db db' : Studio} → IsBooked limit db → LiveReaches policy db db' → IsBooked limit db'
  LiveReaches-IsBooked booked start = booked
  LiveReaches-IsBooked booked (next {db'} path call) =
      run_live-IsBooked call db' (LiveReaches-IsBooked booked path)

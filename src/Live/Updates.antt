-- ===== src/Live/Updates.antt =====
-- What an update of one session does to the books of live try-on.
use fashion_ai_be.Prelude.{
  ℕ, ◌+◌, ◌-◌, ◌==◌, ◌≤◌, ◌<◌, ◌≡◌, sym, ap, ◌∙◌, some, List, any, arith, All-map, All-find,
  find_by, find_by-update_many, sum_by_member, sum_by-update_by, All-update_by, Unique-update_many,
  pos, ◌-ℤ◌, if◌then◌else◌,
}
use mathlib.Core.Path.{subst}
use fashion_ai_be.Live.Tables.{
  LiveTryOnSession, LiveTryOnBudget, LiveTryOnLease, Studio, global_scope, user_scope, is_scope,
  reserved_of, allocated_of, settle_books, update_session,
}
use fashion_ai_be.Live.Books.{
  id_of, in_scope, held_by, charged_by, HasBudgets, IsMetered, IsBooked, reserved_of-settle,
  allocated_of-settle, any-settle,
}

module _ (k d : ℕ) (s : LiveTryOnSession) (used : ℕ) (bs : List LiveTryOnBudget) where
  pub any-settle_books : any (is_scope k d) (settle_books s used bs) ≡ any (is_scope k d) bs
  unfolding settle_books
  any-settle_books = any-settle k d _ _ _ _ _ ∙ any-settle k d _ _ _ _ _

  module _ (covered : HasBudgets bs s) where
    pub reserved_of-settle_books : reserved_of k d (settle_books s used bs) ≡ (
        if in_scope k d s then reserved_of k d bs -ℤ pos s.reserved_seconds else reserved_of k d bs)
    unfolding settle_books
    reserved_of-settle_books =
        let user = user_scope s.user_id in
        let open_row =
          any-settle global_scope s.quota_date user s.quota_date s.reserved_seconds used bs
          ∙ covered.1 in
        reserved_of-settle k d global_scope s.quota_date s.reserved_seconds used _ open_row
        ∙ rw (reserved_of-settle k d user s.quota_date s.reserved_seconds used bs covered.0) ground
            arith

    pub allocated_of-settle_books :
        allocated_of k d (settle_books s used bs)
        ≡ (if in_scope k d s then allocated_of k d bs + used else allocated_of k d bs)
    unfolding settle_books
    allocated_of-settle_books =
        let user = user_scope s.user_id in
        let open_row =
          any-settle global_scope s.quota_date user s.quota_date s.reserved_seconds used bs
          ∙ covered.1 in
        allocated_of-settle k d global_scope s.quota_date s.reserved_seconds used _ open_row
        ∙ rw (allocated_of-settle k d user s.quota_date s.reserved_seconds used bs covered.0) ground
            arith

-- The session of an id after an update of the session of that id.
pub find-update_session :
    (s : LiveTryOnSession) (g : LiveTryOnSession → LiveTryOnSession) (xs : List LiveTryOnSession)
    → ((x : LiveTryOnSession) → (g x).id ≡ x.id)
    → find_by id_of s.id xs ≡ some s
    → find_by id_of s.id (update_session s.id g xs) ≡ some (g s)
find-update_session s g xs keep found =
    find_by-update_many id_of s.id (λ x. x.id == s.id) g xs keep ∙ rw found ground arith

-- A session of which a new version takes the place, with the books that go with it.
module _ {limit : ℕ → ℕ} (db : Studio) (s : LiveTryOnSession)
    (g : LiveTryOnSession → LiveTryOnSession) (bs : List LiveTryOnBudget)
    (leases : List LiveTryOnLease) (keep : (x : LiveTryOnSession) → (g x).id ≡ x.id)
    (found : find_by id_of s.id db.sessions ≡ some s) (booked : IsBooked limit db)
    (rows : (k d : ℕ) → any (is_scope k d) bs ≡ any (is_scope k d) db.budgets) where
  abbrev updated : Studio
  updated = record db {
    sessions = update_session s.id g db.sessions;
    budgets = bs;
    leases = leases;
  }

  pub update-IsBooked :
      IsMetered (g s)
      → (g s).user_id ≡ s.user_id
      → (g s).quota_date ≡ s.quota_date
      → ((k d h : ℕ)
          → held_by k d s ≤ h
          → reserved_of k d db.budgets ≡ pos h
          → reserved_of k d bs ≡ pos (h + held_by k d (g s) - held_by k d s))
      → ((k d : ℕ)
          → allocated_of k d bs + charged_by k d s
            ≤ allocated_of k d db.budgets + charged_by k d (g s))
      → ((k d : ℕ)
          → held_by k d (g s) + allocated_of k d bs ≤ held_by k d s + allocated_of k d db.budgets)
      → IsBooked limit updated
  update-IsBooked metered user date held charged spent = record {
    unique = Unique-update_many id_of (λ x. x.id == s.id) g db.sessions keep booked.unique;
    below =
        All-update_by id_of (λ x. x.id < db.next_id) g s.id db.sessions booked.unique found
          booked.below
          (subst (λ i. i < db.next_id) (sym (keep s))
            (All-find (λ x. x.id < db.next_id) (λ x. x.id == s.id) db.sessions booked.below found));
    covered =
        All-update_by id_of (HasBudgets bs) g s.id db.sessions booked.unique found
          (All-map _ _ db.sessions (λ x h. ((rows _ _ ∙ h.0), (rows _ _ ∙ h.1))) booked.covered)
          (let here =
              All-find (HasBudgets db.budgets) (λ x. x.id == s.id) db.sessions booked.covered
                found in
            (rw (user, date) (rows _ _ ∙ here.0), rw date (rows _ _ ∙ here.1)));
    metered =
        All-update_by id_of IsMetered g s.id db.sessions booked.unique found booked.metered metered;
    held = λ k d.
        let member = sum_by_member id_of (held_by k d) s.id db.sessions found in
        let moved = sum_by-update_by id_of (held_by k d) g s.id db.sessions booked.unique found in
        held k d _ member (booked.held k d) ∙ ap pos (omega (arith, moved, member));
    charged = λ k d.
        let moved =
          sum_by-update_by id_of (charged_by k d) g s.id db.sessions booked.unique found in
        omega (arith, moved, charged k d, booked.charged k d);
    within = λ k d.
        let moved = sum_by-update_by id_of (held_by k d) g s.id db.sessions booked.unique found in
        omega (arith, moved, spent k d, booked.within k d);
  }

  -- An update that leaves the reservation and the charge of a session as they are.
  pub touch-IsBooked :
      IsMetered (g s)
      → (g s).user_id ≡ s.user_id
      → (g s).quota_date ≡ s.quota_date
      → ((k d : ℕ) → held_by k d (g s) ≡ held_by k d s)
      → ((k d : ℕ) → charged_by k d s ≤ charged_by k d (g s))
      → bs ≡ db.budgets
      → IsBooked limit updated
  touch-IsBooked metered user date held charged same =
      update-IsBooked metered user date
        (λ k d h le e. ap (reserved_of k d) same ∙ e ∙ ap pos (omega (arith, held k d)))
        (λ k d. omega (arith, ap (allocated_of k d) same, charged k d))
        (λ k d. omega (arith, ap (allocated_of k d) same, held k d))

-- ===== src/Live/Closing.antt =====
-- Closing an open session and settling its seconds keeps the books of live try-on.
use fashion_ai_be.Prelude.{
  ℕ, ◌+◌, ◌-◌, ◌==◌, ◌≤◌, ◌≡◌, refl, ap, ◌∙◌, Bool, true, false, some, List, arith, All-find,
  find_by, ℤ, pos, ◌-ℤ◌, -ℤ-pos, if◌then◌else◌,
}
use fashion_ai_be.Live.Tables.{
  LiveTryOnSession, LiveTryOnLease, Studio, is_reserved, settle_books, update_session,
}
use fashion_ai_be.Live.Books.{id_of, in_scope, held_by, charged_by, HasBudgets, IsMetered, IsBooked}
use fashion_ai_be.Live.Updates.{
  update-IsBooked, any-settle_books, reserved_of-settle_books, allocated_of-settle_books,
}

-- The three columns of a scope that a settled session draws on, or does not.
settled_hold :
    (t : Bool) (r : ℤ) (h n x y : ℕ)
    → r ≡ pos h
    → y ≡ (if t then n else 0)
    → x ≡ 0
    → y ≤ h
    → (if t then r -ℤ pos n else r) ≡ pos (h + x - y)
settled_hold true r h n x y e f z le =
    ap (λ (q : ℤ). q -ℤ pos n) e ∙ -ℤ-pos h n (omega arith) ∙ ap pos (omega arith)
settled_hold false r h n x y e f z le = e ∙ ap pos (omega arith)

settled_charge :
    (t : Bool) (a a' u x y : ℕ)
    → a' ≡ (if t then a + u else a)
    → x ≡ 0
    → y ≡ (if t then u else 0)
    → a' + x ≤ a + y
settled_charge true a a' u x y e z f = omega arith
settled_charge false a a' u x y e z f = omega arith

settled_total :
    (t : Bool) (a a' u n x y : ℕ)
    → a' ≡ (if t then a + u else a)
    → x ≡ 0
    → y ≡ (if t then n else 0)
    → u ≤ n
    → x + a' ≤ y + a
settled_total true a a' u n x y e z f le = omega arith
settled_total false a a' u n x y e z f le = omega arith

module _ {limit : ℕ → ℕ} (db : Studio) (s : LiveTryOnSession)
    (found : find_by id_of s.id db.sessions ≡ some s) (booked : IsBooked limit db) where
  pub IsMetered-found : IsMetered s
  IsMetered-found = All-find IsMetered (λ x. x.id == s.id) db.sessions booked.metered found

  pub covered_found : HasBudgets db.budgets s
  covered_found =
      All-find (HasBudgets db.budgets) (λ x. x.id == s.id) db.sessions booked.covered found

  -- An open session is closed, and its seconds are settled.
  pub close-IsBooked :
      (g : LiveTryOnSession → LiveTryOnSession) (used : ℕ) (leases : List LiveTryOnLease)
      → ((x : LiveTryOnSession) → (g x).id ≡ x.id)
      → (g s).user_id ≡ s.user_id
      → (g s).quota_date ≡ s.quota_date
      → is_reserved s.reservation_status ≡ true
      → is_reserved (g s).reservation_status ≡ false
      → (g s).allocated_seconds ≡ used
      → IsMetered (g s)
      → used ≤ s.reserved_seconds
      → IsBooked limit (record db {
        sessions = update_session s.id g db.sessions;
        budgets = settle_books s used db.budgets;
        leases = leases;
      })
  close-IsBooked g used leases keep user date was_open closed charge metered le =
      let held = λ (k d : ℕ).
        let e : held_by k d s ≡ (if in_scope k d s then s.reserved_seconds else 0) =
          rw was_open refl in
        e in
      let freed = λ (k d : ℕ). let e : held_by k d (g s) ≡ 0 = rw closed refl in e in
      let charged = λ (k d : ℕ).
        let e : charged_by k d (g s) ≡ (if in_scope k d s then used else 0) =
          rw (user, date, charge) refl in
        e in
      let uncharged = λ (k d : ℕ).
        let zero_charge : s.allocated_seconds ≡ 0 = rw was_open at (IsMetered-found.2) in
        let e : charged_by k d s ≡ 0 = rw zero_charge ground arith in e in
      let total = λ (k d : ℕ). allocated_of-settle_books k d s used db.budgets covered_found in
      update-IsBooked db s g (settle_books s used db.budgets) leases keep found booked
        (λ k d. any-settle_books k d s used db.budgets) metered user date
        (λ k d h member e.
          reserved_of-settle_books k d s used db.budgets covered_found
          ∙ settled_hold (in_scope k d s) _ h s.reserved_seconds _ _ e (held k d) (freed k d)
              member)
        (λ k d.
          settled_charge (in_scope k d s) _ _ used _ _ (total k d) (uncharged k d) (charged k d))
        (λ k d.
          settled_total (in_scope k d s) _ _ used s.reserved_seconds _ _ (total k d) (freed k d)
            (held k d) le)

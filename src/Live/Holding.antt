-- ===== src/Live/Holding.antt =====
-- What a reservation writes, the budgets that it opens and the seconds that it holds, keeps the books
-- of live try-on.
use fashion_ai_be.Prelude.{
  ℕ, ◌+◌, ◌==◌, ◌≤◌, ◌≡◌, refl, ap, ◌∙◌, inl, inr, Bool, true, false, ◌&&◌, ◌||◌, List, any, arith,
  All-map, find_by_fresh, Below-suc, Bool-cases, sum_by, ℤ, pos, ◌+ℤ◌, +ℤ-pos, if◌then◌else◌,
}
use mathlib.Core.Path.{subst}
use fashion_ai_be.Live.Tables.{
  LiveTryOnBudget, LiveTryOnPolicy, Studio, global_scope, user_scope, is_scope, reserved_of,
  allocated_of, upsert_budget, hold_seconds,
}
use fashion_ai_be.Live.Reserve.{Request, reserve_commit}
use fashion_ai_be.Live.Books.{
  id_of, held_by, IsBooked, reserved_of-upsert, allocated_of-upsert, any-upsert, reserved_of-hold,
  allocated_of-hold, any-hold,
}

pub upsert-IsBooked :
    {limit : ℕ → ℕ} (k d : ℕ) (db : Studio)
    → IsBooked limit db
    → IsBooked limit (record db { budgets = upsert_budget k d db.budgets })
upsert-IsBooked k' d' db booked = record {
  unique = booked.unique;
  below = booked.below;
  covered =
      All-map _ _ db.sessions
        (λ s h. (any-upsert _ _ k' d' db.budgets h.0, any-upsert _ _ k' d' db.budgets h.1))
        booked.covered;
  metered = booked.metered;
  held = λ k d. reserved_of-upsert k d k' d' db.budgets ∙ booked.held k d;
  charged = λ k d. omega (arith, allocated_of-upsert k d k' d' db.budgets, booked.charged k d);
  within = λ k d. omega (arith, allocated_of-upsert k d k' d' db.budgets, booked.within k d);
}

-- A policy asks for no more than the limits of its scopes.

held_value :
    (t : Bool) (r : ℤ) (h n x : ℕ)
    → r ≡ pos h
    → x ≡ (if t then n else 0)
    → (if t then r +ℤ pos n else r) ≡ pos (x + h)
held_value true r h n x e f = ap (λ (q : ℤ). q +ℤ pos n) e ∙ +ℤ-pos h n ∙ ap pos (omega arith)
held_value false r h n x e f = e ∙ ap pos (omega arith)

module _ (k d : ℕ) (user_id date n : ℕ) (bs : List LiveTryOnBudget)
    (own : any (is_scope (user_scope user_id) date) bs ≡ true)
    (common : any (is_scope global_scope date) bs ≡ true) where
  abbrev held_both : List LiveTryOnBudget
  held_both = hold_seconds global_scope date n (hold_seconds (user_scope user_id) date n bs)

  reserved_of-held_both : reserved_of k d held_both ≡ (
      if date == d && (k == global_scope || k == user_scope user_id)
      then reserved_of k d bs +ℤ pos n
      else reserved_of k d bs)
  reserved_of-held_both =
      let open_row = any-hold global_scope date (user_scope user_id) date n bs ∙ common in
      reserved_of-hold k d global_scope date n _ open_row
      ∙ rw (reserved_of-hold k d (user_scope user_id) date n bs own) ground arith

  allocated_of-held_both : allocated_of k d held_both ≡ allocated_of k d bs
  allocated_of-held_both =
      let open_row = any-hold global_scope date (user_scope user_id) date n bs ∙ common in
      allocated_of-hold k d global_scope date n _ open_row
      ∙ allocated_of-hold k d (user_scope user_id) date n bs own

  any-held_both : any (is_scope k d) held_both ≡ any (is_scope k d) bs
  any-held_both = any-hold k d _ _ _ _ ∙ any-hold k d _ _ _ _

module _ {limit : ℕ → ℕ} (policy : LiveTryOnPolicy) (r : Request) (n : ℕ) (db : Studio)
    (own : any (is_scope (user_scope r.user_id) r.quota_date) db.budgets ≡ true)
    (common : any (is_scope global_scope r.quota_date) db.budgets ≡ true) where
  pub commit-IsBooked :
      IsBooked limit db
      → ((k : ℕ)
          → (k == global_scope || k == user_scope r.user_id) ≡ true
          → sum_by (held_by k r.quota_date) db.sessions + allocated_of k r.quota_date db.budgets + n
            ≤ limit k)
      → IsBooked limit (reserve_commit policy r n db)
  unfolding reserve_commit
  commit-IsBooked booked room = record {
    unique = (find_by_fresh id_of db.next_id db.sessions booked.below, booked.unique);
    below = (omega arith, Below-suc id_of db.next_id db.sessions booked.below);
    covered = (
      (
        any-held_both _ _ r.user_id r.quota_date n db.budgets own common ∙ own,
        any-held_both _ _ r.user_id r.quota_date n db.budgets own common ∙ common,
      ),
      All-map _ _ db.sessions
          (λ s h. (
            any-held_both _ _ r.user_id r.quota_date n db.budgets own common ∙ h.0,
            any-held_both _ _ r.user_id r.quota_date n db.budgets own common ∙ h.1,
          ))
          booked.covered,
    );
    metered = ((omega arith, omega arith, refl), booked.metered);
    held = λ k d.
        reserved_of-held_both k d r.user_id r.quota_date n db.budgets own common
        ∙ held_value (r.quota_date == d && (k == global_scope || k == user_scope r.user_id)) _ _ n _
            (booked.held k d) refl;
    charged = λ k d. omega (
      arith,
      allocated_of-held_both k d r.user_id r.quota_date n db.budgets own common,
      booked.charged k d,
    );
    within = λ k d.
        let same = allocated_of-held_both k d r.user_id r.quota_date n db.budgets own common in
        elim (Bool-cases (r.quota_date == d && (k == global_scope || k == user_scope r.user_id))) [
          | inl drawn ↦
              let day : r.quota_date ≡ d = ground (arith, drawn) in
              let free =
                subst
                  (λ t.
                    sum_by (held_by k t) db.sessions + allocated_of k t db.budgets + n ≤ limit k)
                  day (room k (ground (arith, drawn))) in
              rw drawn (omega (arith, same, free))
          | inr other ↦ rw other (omega (arith, same, booked.within k d))
        ];
  }

-- The books are kept, and the session that is answered is open and unused.

-- ===== src/Subscriptions/Toggle.antt =====
-- Turning the renewal of a plan off and on again.
use fashion_ai_be.Prelude.{
  ℕ, ◌==◌, ◌≡◌, refl, ◌∙◌, ap, inl, inr, leb, ltb, Bool, true, false, not, ◌&&◌, some, List, [],
  ◌∷◌, arith, All, All-found, All-find_many, All-same_key, Unique, find_by, count, find_many,
  update_many, same, if◌then◌else◌, Bool-cases, Option-cases,
}
use mathlib.Core.Path.{subst}
use mathlib.Core.Option
use fashion_ai_be.Schema.Members.{SubscriptionStatus, Subscription, Members, subscription_keyed}
use fashion_ai_be.Orders.Tx.{ok}
use fashion_ai_be.Subscriptions.Plans.{running, latest, later_of}
use fashion_ai_be.Subscriptions.Entitlement.{subscription_id_of}
use fashion_ai_be.Subscriptions.AutoRenew.{
  has_auto_renew, with_auto_renew, switch_found, cancel_auto_renew, resume_auto_renew,
}

abbrev flip : (Subscription → Bool) → Bool → Subscription → Subscription
flip p on s = if p s then with_auto_renew on s else s

find_many-flip :
    (q p : Subscription → Bool) (on : Bool) (xs : List Subscription)
    → ((s : Subscription) → q (with_auto_renew on s) ≡ q s)
    → find_many q (update_many p (with_auto_renew on) xs)
      ≡ update_many p (with_auto_renew on) (find_many q xs)
find_many-flip q p on [] keep = refl
find_many-flip q p on (x ∷ xs) keep = ground (arith, keep x, find_many-flip q p on xs keep)

later-flip :
    (p : Subscription → Bool) (on : Bool) (x t : Subscription)
    → later_of (flip p on x) (some (flip p on t)) ≡ flip p on (later_of x (some t))
later-flip p on x t = ground arith

latest-flip :
    (p : Subscription → Bool) (on : Bool) (xs : List Subscription)
    → latest (update_many p (with_auto_renew on) xs) ≡ Option.map (flip p on) (latest xs)
latest-flip p on [] = refl
latest-flip p on (x ∷ xs) = elim (Option-cases (latest xs)) [
  | inl last ↦ rw (latest-flip p on xs, last) refl
  | inr (t, found) ↦ rw (latest-flip p on xs, found) (ap some (later-flip p on x t))
]

latest-All {κ} :
    (P : Subscription → Type κ) (xs : List Subscription) {r : Subscription}
    → All P xs
    → latest xs ≡ some r
    → P r
latest-All P [] h e = cc
latest-All P (x ∷ xs) {r} h e = elim (Option-cases (latest xs)) [
  | inl last ↦ let e' : x ≡ r = ground (arith, rw last at e) in subst P e' h.0
  | inr (t, found) ↦ elim (Bool-cases (ltb x.expires_at t.expires_at)) [
    | inl later ↦
        let e' : t ≡ r = ground (arith, rw (found, later) at e) in
        subst P e' (latest-All P xs {r = t} h.1 found)
    | inr first ↦ let e' : x ≡ r = ground (arith, rw (found, first) at e) in subst P e' h.0
  ]
]

running_found :
    (user_id now : ℕ) (m : Members) {s : Subscription}
    → Unique subscription_id_of m.subscriptions
    → running user_id now m ≡ some s
    → find_by subscription_id_of s.id m.subscriptions ≡ some s
unfolding running
running_found user_id now m {s} u e =
    let q = λ (x : Subscription).
      x.user_id == user_id && same x.status SubscriptionStatus.active && leb now x.expires_at in
    (latest-All _ (find_many q m.subscriptions) {r = s}
      (All-find_many (λ x. find_by subscription_id_of x.id m.subscriptions ≡ some x) q
        m.subscriptions (All-found subscription_id_of m.subscriptions u))
      e).0

-- The query of the running subscription after a flag was turned.
running-flip :
    (user_id now : ℕ) (p : Subscription → Bool) (on : Bool) (m : Members)
    → running user_id now
        (record m { subscriptions = update_many p (with_auto_renew on) m.subscriptions })
      ≡ Option.map (flip p on) (running user_id now m)
unfolding running
running-flip user_id now p on m =
    let q = λ (x : Subscription).
      x.user_id == user_id && same x.status SubscriptionStatus.active && leb now x.expires_at in
    ap latest (find_many-flip q p on m.subscriptions (λ s. refl))
    ∙ latest-flip p on (find_many q m.subscriptions)

-- Off and on again is the same table, where the row of the id is on at the start.
off_on :
    (s : Subscription) (xs : List Subscription)
    → All (λ x. x.id ≡ s.id → x ≡ s) xs
    → s.auto_renew ≡ true
    → update_many
        (has_auto_renew s.id false)
        (with_auto_renew true)
        (update_many (has_auto_renew s.id true) (with_auto_renew false) xs)
      ≡ xs
off_on s [] h on = refl
off_on s (x ∷ xs) h on = elim (Bool-cases (x.id == s.id)) [
  | inl hit ↦
      let found : x.id ≡ s.id = ground (arith, hit) in
      let on' : x.auto_renew ≡ true = ap (λ y. y.auto_renew) (h.0 found) ∙ on in
      rw (hit, on') (rw hit (ap (◌∷◌ (record x { auto_renew = true })) (off_on s xs h.1 on)))
  | inr miss ↦ rw miss (rw miss (ap (◌∷◌ x) (off_on s xs h.1 on)))
]

-- The row of the running subscription is counted by the condition on its flag.
counts :
    (s : Subscription) (on : Bool) (xs : List Subscription)
    → find_by subscription_id_of s.id xs ≡ some s
    → has_auto_renew s.id on s ≡ true
    → (count (has_auto_renew s.id on) xs == 0) ≡ false
counts s on [] found holds = cc
counts s on (x ∷ xs) found holds = elim (Bool-cases (x.id == s.id)) [
  | inl hit ↦ let e : x ≡ s = ground (arith, hit, found) in rw (e, holds) ground arith
  | inr miss ↦ ground (arith, miss, counts s on xs (rw miss at found) holds)
]

-- Once it is off, the condition for turning it on counts it.
counts_off :
    (s : Subscription) (xs : List Subscription)
    → find_by subscription_id_of s.id xs ≡ some s
    → s.auto_renew ≡ true
    → (count
          (has_auto_renew s.id false)
          (update_many (has_auto_renew s.id true) (with_auto_renew false) xs)
        == 0)
      ≡ false
counts_off s [] found on = cc
counts_off s (x ∷ xs) found on = elim (Bool-cases (x.id == s.id)) [
  | inl hit ↦ let e : x ≡ s = ground (arith, hit, found) in rw (e, on) ground arith
  | inr miss ↦ ground (arith, miss, counts_off s xs (rw miss at found) on)
]

switch_counted :
    (s : Subscription) (on : Bool) (m : Members)
    → (count (has_auto_renew s.id (not on)) m.subscriptions == 0) ≡ false
    → switch_found (some s) on m ≡ (
      record m {
        subscriptions =
            update_many (has_auto_renew s.id (not on)) (with_auto_renew on) m.subscriptions;
      },
      ok on,
    )
unfolding switch_found
switch_counted s on m c = rw c refl

abbrev switched_off : ℕ → Members → Members
switched_off id m = record m {
  subscriptions = update_many (has_auto_renew id true) (with_auto_renew false) m.subscriptions;
}

running-switched_off :
    (user_id now : ℕ) (m : Members) (s : Subscription)
    → running user_id now m ≡ some s
    → s.auto_renew ≡ true
    → running user_id now (switched_off s.id m) ≡ some (with_auto_renew false s)
running-switched_off user_id now m s r on =
    running-flip user_id now (has_auto_renew s.id true) false m
    ∙ ap (Option.map (flip (has_auto_renew s.id true) false)) r
    ∙ ap some ground arith

-- Cancelling the renewal and then resuming it at the same moment leaves every
-- table as it was, where ids are unique and the running plan of the user renews.
pub resume-cancel :
    (user_id now : ℕ) (m : Members) {s : Subscription}
    → Unique subscription_id_of m.subscriptions
    → running user_id now m ≡ some s
    → s.auto_renew ≡ true
    → resume_auto_renew user_id now (cancel_auto_renew user_id now m).0 ≡ (m, ok true)
unfolding cancel_auto_renew resume_auto_renew
resume-cancel user_id now m {s} u r on =
    let found = running_found user_id now m u r in
    let row = All-same_key subscription_id_of s.id s m.subscriptions u found in
    let off : (switch_found (running user_id now m) false m).0 ≡ switched_off s.id m = rw r (
      ap (λ p. p.0)
        (switch_counted s false m (counts s true m.subscriptions found ground arith))) in
    rw (off, running-switched_off user_id now m s r on)
      (switch_counted (with_auto_renew false s) true (switched_off s.id m)
          (counts_off s m.subscriptions found on)
        ∙ ap (λ rows. (record m { subscriptions = rows }, ok true))
            (off_on s m.subscriptions row on))

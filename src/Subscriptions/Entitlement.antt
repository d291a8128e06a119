-- ===== src/Subscriptions/Entitlement.antt =====
-- What an order of a plan does to the plan of its customer.
use fashion_ai_be.Prelude.{
  ℕ, ◌+◌, ◌<◌, ◌≤◌, ◌==◌, ◌≡◌, ◌≢◌, refl, inl, inr, ltb, true, false, Option, none, some, arith,
  find_by, find_holds, find_by-update_many, find_by-update_same, same, Bool-cases,
}
use fashion_ai_be.Schema.Members.{
  UserTier, SubscriptionStatus, User, Subscription, Members, tier_keyed, subscription_keyed,
}
use fashion_ai_be.Subscriptions.Plans.{duration_ms, is_upgrade, is_downgrade}
use fashion_ai_be.Subscriptions.Renew.{
  Mode, apply_mode, current_subscription, classify, set_tier, renewal_start, upgrade_expiry,
  apply_upgrade, schedule_downgrade, create_or_extend_subscription,
}

abbrev pub user_id_of : User → ℕ
user_id_of u = u.id

abbrev pub subscription_id_of : Subscription → ℕ
subscription_id_of s = s.id

abbrev pub entitled : UserTier → ℕ → User → User
entitled tier expires_at u = record u { tier = tier; tier_expires_at = some expires_at }

set_tier-find_by :
    (user_id : ℕ) (tier : UserTier) (expires_at : ℕ) (m : Members) {u : User}
    → find_by user_id_of user_id m.users ≡ some u
    → find_by user_id_of user_id (set_tier user_id tier expires_at m).users
      ≡ some (entitled tier expires_at u)
set_tier-find_by user_id tier expires_at m {u} found =
    let mine : (u.id == user_id) ≡ true =
      find_holds (λ (x : User). x.id == user_id) m.users found in
    rw (
      find_by-update_many user_id_of user_id (λ x. x.id == user_id) (entitled tier expires_at)
          m.users (λ x. refl),
      found,
      mine,
    )

apply_upgrade-users :
    (user_id : ℕ) (tier : UserTier) (order_id now : ℕ) (s : Subscription) (m : Members)
    → (apply_upgrade user_id tier order_id now s m).users
      ≡ (set_tier user_id tier (upgrade_expiry s now) m).users
unfolding apply_upgrade
apply_upgrade-users user_id tier order_id now s m = ground arith

module _ (user_id : ℕ) (tier : UserTier) (order_id now : ℕ) (m : Members) {s : Subscription}
    {u : User} (current : current_subscription user_id m ≡ some s)
    (is_active : same s.status SubscriptionStatus.active ≡ true)
    (in_time : ltb s.expires_at now ≡ false)
    (known : find_by user_id_of user_id m.users ≡ some u) where
  -- A customer with a running plan who pays for the same plan again has it until 30 days after the
  -- end of the running one.
  pub renewal_adds_duration :
      same s.tier tier ≡ true
      → find_by user_id_of user_id
          (create_or_extend_subscription user_id tier order_id now m).0.users
        ≡ some (entitled tier (s.expires_at + duration_ms) u)
  unfolding create_or_extend_subscription
  renewal_adds_duration same_plan =
      let start : renewal_start (some s) now ≡ s.expires_at = ground arith in
      rw (current, is_active, in_time, same_plan, start)
        (set_tier-find_by user_id tier _ m {u = u} known)

  pub upgrade_keeps_expiry :
      is_upgrade s.tier tier ≡ true
      → find_by user_id_of user_id
          (create_or_extend_subscription user_id tier order_id now m).0.users
        ≡ some (entitled tier (upgrade_expiry s now) u)
  unfolding create_or_extend_subscription
  upgrade_keeps_expiry up =
      let other : same s.tier tier ≡ false = ground arith in
      rw (current, is_active, in_time, other, up)
        (rw (apply_upgrade-users user_id tier order_id now s m)
          (set_tier-find_by user_id tier _ m {u = u} known))

  not_less :
      is_downgrade s.tier tier ≡ false → same s.tier tier ≡ false → is_upgrade s.tier tier ≡ true
  not_less h k = ground arith

  -- A customer with a running plan who pays for the same plan or a better one has the plan that was
  -- paid for, and for no shorter than before.
  pub payment_never_shortens :
      is_downgrade s.tier tier ≡ false
      → (t : ℕ) × (find_by user_id_of user_id
            (create_or_extend_subscription user_id tier order_id now m).0.users
          ≡ some (entitled tier t u))
        × (s.expires_at ≤ t)
  payment_never_shortens h = elim (Bool-cases (same s.tier tier)) [
    | inl same_plan ↦ (_, renewal_adds_duration same_plan, omega arith)
    | inr other ↦ (_, upgrade_keeps_expiry (not_less h other), ground arith)
  ]

  -- A customer with a running plan who pays for a lesser one keeps the running plan, and the lesser
  -- one is written down, under the next free id, to begin when that ends and to last 30 days.
  downgrade_waits :
      s.id < m.next_id
      → is_downgrade s.tier tier ≡ true
      → let m' = (create_or_extend_subscription user_id tier order_id now m).0 in
        (m'.users ≡ m.users)
        × (find_by subscription_id_of m.next_id m'.subscriptions
            ≡ some (record {
              id = m.next_id;
              user_id = user_id;
              tier = tier;
              order_id = order_id;
              status = SubscriptionStatus.scheduled;
              auto_renew = true;
              starts_at = s.expires_at;
              expires_at = s.expires_at + duration_ms;
            }))
  unfolding create_or_extend_subscription schedule_downgrade
  downgrade_waits fresh down =
      let other : same s.tier tier ≡ false = ground arith in
      let not_up : is_upgrade s.tier tier ≡ false = ground arith in
      let miss : (m.next_id == s.id) ≡ false = ground arith in
      let hit : (m.next_id == m.next_id) ≡ true = ground arith in
      rw (current, is_active, in_time, other, not_up) (refl, rw (miss, hit) refl)

set_tier-other :
    (user_id : ℕ) (tier : UserTier) (expires_at k : ℕ) (m : Members)
    → k ≢ user_id
    → find_by user_id_of k (set_tier user_id tier expires_at m).users ≡ find_by user_id_of k m.users
set_tier-other user_id tier expires_at k m h =
    find_by-update_same user_id_of k (λ x. x.id == user_id) (entitled tier expires_at) m.users
      (λ x. refl) (λ x e. ground (arith, h))

apply_mode-other :
    (mode : Mode) (user_id : ℕ) (tier : UserTier) (order_id now k : ℕ)
    (current : Option Subscription) (m : Members)
    → k ≢ user_id
    → find_by user_id_of k (apply_mode mode user_id tier order_id now current m).users
      ≡ find_by user_id_of k m.users
unfolding apply_mode schedule_downgrade
apply_mode-other Mode.new_subscription user_id tier order_id now k current m h =
    set_tier-other user_id tier _ k m h
apply_mode-other Mode.renewal user_id tier order_id now k current m h =
    set_tier-other user_id tier _ k m h
apply_mode-other Mode.upgrade user_id tier order_id now k (some s) m h =
    rw (apply_upgrade-users user_id tier order_id now s m) (set_tier-other user_id tier _ k m h)
apply_mode-other Mode.upgrade user_id tier order_id now k none m h = refl
apply_mode-other Mode.downgrade user_id tier order_id now k (some s) m h = refl
apply_mode-other Mode.downgrade user_id tier order_id now k none m h = refl

-- An order of a plan leaves the accounts of all other customers, their plans and expiries, as they are.
other_customers :
    (user_id : ℕ) (tier : UserTier) (order_id now k : ℕ) (m : Members)
    → k ≢ user_id
    → find_by user_id_of k (create_or_extend_subscription user_id tier order_id now m).0.users
      ≡ find_by user_id_of k m.users
unfolding create_or_extend_subscription
other_customers user_id tier order_id now k m h =
    apply_mode-other (classify (current_subscription user_id m) tier now) user_id tier order_id now
      k (current_subscription user_id m) m h

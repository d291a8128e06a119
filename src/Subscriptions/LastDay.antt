-- ===== src/Subscriptions/LastDay.antt =====
-- An upgrade on the last day of a plan.
use fashion_ai_be.Prelude.{ℕ, ◌+◌, ◌<◌, ◌≤◌, ◌≡◌, ltb, true, false, some, arith, find_by, same}
use fashion_ai_be.Schema.Members.{
  UserTier, SubscriptionStatus, User, Subscription, Members, subscription_keyed,
}
use fashion_ai_be.Subscriptions.Plans.{
  tier_price, ms_per_day, days_left, is_upgrade, running, checkout_amount,
  proration_min_remaining_days,
}
use fashion_ai_be.Subscriptions.Renew.{
  current_subscription, upgrade_expiry, create_or_extend_subscription,
}
use fashion_ai_be.Subscriptions.Entitlement.{user_id_of, entitled, upgrade_keeps_expiry}

few_days :
    (expires_at now : ℕ)
    → expires_at ≤ now + ms_per_day
    → ltb proration_min_remaining_days (days_left expires_at now) ≡ false
few_days expires_at now h = ground arith

full_price :
    (user_id : ℕ) (tier : UserTier) (now : ℕ) (m : Members) {s : Subscription}
    → running user_id now m ≡ some s
    → s.expires_at ≤ now + ms_per_day
    → checkout_amount user_id tier now m ≡ tier_price tier
unfolding checkout_amount
full_price user_id tier now m {s} current last =
    let few = few_days s.expires_at now last in rw current (ground arith)

-- A customer who upgrades a plan that has a day or less to run is asked the price of 30 days of the
-- better plan, and has the better plan no longer than the old one would have run.
pub last_day_upgrade :
    (user_id : ℕ) (tier : UserTier) (order_id now : ℕ) (m : Members) {s : Subscription} {u : User}
    → running user_id now m ≡ some s
    → current_subscription user_id m ≡ some s
    → same s.status SubscriptionStatus.active ≡ true
    → now < s.expires_at
    → s.expires_at ≤ now + ms_per_day
    → is_upgrade s.tier tier ≡ true
    → find_by user_id_of user_id m.users ≡ some u
    → (checkout_amount user_id tier now m ≡ tier_price tier)
      × (find_by user_id_of user_id
            (create_or_extend_subscription user_id tier order_id now m).0.users
          ≡ some (entitled tier s.expires_at u))
last_day_upgrade user_id tier order_id now m {s} {u} current owned is_active before last up known =
    let in_time : ltb s.expires_at now ≡ false = ground arith in
    let kept : upgrade_expiry s now ≡ s.expires_at = ground arith in
    (
      full_price user_id tier now m {s = s} current last,
      rw kept at (
          upgrade_keeps_expiry user_id tier order_id now m {s = s} {u = u} owned is_active in_time
            known up),
    )

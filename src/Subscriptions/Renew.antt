-- ===== src/Subscriptions/Renew.antt =====
-- `createOrExtendSubscription` of src/modules/payments/subscription.service.ts. The transaction is
-- the caller's.
use fashion_ai_be.Prelude.{
  ℕ, ◌+◌, ◌==◌, ltb, leb, true, false, ◌&&◌, ◌||◌, Option, none, some, ◌∷◌, find, find_many,
  update_many, same, if◌then◌else◌,
}
use fashion_ai_be.Schema.Members.{
  UserTier, SubscriptionStatus, Subscription, Members, tier_keyed, subscription_keyed,
}
use fashion_ai_be.Subscriptions.Plans.{duration_ms, is_upgrade, latest}

pub data Mode : Type 0 where
  new_subscription renewal upgrade downgrade : Mode

-- the subscription that the order is measured against
unfoldable pub current_subscription : ℕ → Members → Option Subscription
current_subscription user_id m = latest (
    find_many
      (λ s.
        s.user_id == user_id
        && (same s.status SubscriptionStatus.active || same s.status SubscriptionStatus.scheduled))
      m.subscriptions)

abbrev pub classify : Option Subscription → UserTier → ℕ → Mode
classify none tier now = Mode.new_subscription
classify (some s) tier now =
    if same s.status SubscriptionStatus.active && ltb s.expires_at now
    then Mode.new_subscription
    else if same s.tier tier && same s.status SubscriptionStatus.active
    then Mode.renewal
    else if is_upgrade s.tier tier
    then Mode.upgrade
    else Mode.downgrade

-- `subscription.create`
abbrev pub add_subscription : ℕ → UserTier → ℕ → SubscriptionStatus → ℕ → ℕ → Members → Members
add_subscription user_id tier order_id status starts_at expires_at m = record m {
  subscriptions =
      record {
        id = m.next_id;
        user_id = user_id;
        tier = tier;
        order_id = order_id;
        status = status;
        auto_renew = true;
        starts_at = starts_at;
        expires_at = expires_at;
      }
      ∷ m.subscriptions;
  next_id = m.next_id + 1;
}

-- `user.update({ data: { tier, tierExpiresAt } })`
abbrev pub set_tier : ℕ → UserTier → ℕ → Members → Members
set_tier user_id tier expires_at m = record m {
  users =
      update_many (λ u. u.id == user_id)
        (λ u. record u { tier = tier; tier_expires_at = some expires_at }) m.users;
}

-- `subscription.update({ where: { id } })`
abbrev pub update_subscription : ℕ → (Subscription → Subscription) → Members → Members
update_subscription k f m = record m {
  subscriptions = update_many (λ s. s.id == k) f m.subscriptions;
}

-- where a new or renewed subscription begins
abbrev pub renewal_start : Option Subscription → ℕ → ℕ
renewal_start none now = now
renewal_start (some s) now =
    if same s.status SubscriptionStatus.active && ltb now s.expires_at then s.expires_at else now

abbrev pub upgrade_expiry : Subscription → ℕ → ℕ
upgrade_expiry s now = if leb s.expires_at now then now + duration_ms else s.expires_at

cancel_found : Option Subscription → Members → Members
cancel_found none m = m
cancel_found (some s) m =
    update_subscription s.id (λ t. record t { status = SubscriptionStatus.cancelled }) m

extend : ℕ → UserTier → ℕ → ℕ → Option Subscription → Members → Members
extend user_id tier order_id now current m =
    let starts_at = renewal_start current now in
    let expires_at = starts_at + duration_ms in
    set_tier user_id tier expires_at
      (add_subscription user_id tier order_id SubscriptionStatus.active starts_at expires_at m)

unfoldable pub apply_upgrade : ℕ → UserTier → ℕ → ℕ → Subscription → Members → Members
unfolding cancel_found
apply_upgrade user_id tier order_id now s m =
    let expires_at = upgrade_expiry s now in
    let m₁ =
      update_subscription s.id
        (λ t. record t {
          status = SubscriptionStatus.cancelled;
          auto_renew = false;
          expires_at = now;
        })
        m in
    let m₂ = add_subscription user_id tier order_id SubscriptionStatus.active now expires_at m₁ in
    let m₃ = set_tier user_id tier expires_at m₂ in
    cancel_found
      (find (λ t. t.user_id == user_id && same t.status SubscriptionStatus.scheduled)
        m₃.subscriptions)
      m₃

unfoldable pub schedule_downgrade : ℕ → UserTier → ℕ → Subscription → Members → Members
schedule_downgrade user_id tier order_id s m =
    update_subscription s.id (λ t. record t { auto_renew = false })
      (add_subscription user_id tier order_id SubscriptionStatus.scheduled s.expires_at
        (s.expires_at + duration_ms) m)

-- UPGRADE and DOWNGRADE have a current subscription, so the last clause is for no run.
unfoldable pub apply_mode : Mode → ℕ → UserTier → ℕ → ℕ → Option Subscription → Members → Members
unfolding extend apply_upgrade schedule_downgrade
apply_mode Mode.new_subscription user_id tier order_id now current m =
    extend user_id tier order_id now current m
apply_mode Mode.renewal user_id tier order_id now current m =
    extend user_id tier order_id now current m
apply_mode Mode.upgrade user_id tier order_id now (some s) m =
    apply_upgrade user_id tier order_id now s m
apply_mode Mode.downgrade user_id tier order_id now (some s) m =
    schedule_downgrade user_id tier order_id s m
apply_mode _ user_id tier order_id now _ m = m

-- `createOrExtendSubscription`: the new tables and the mode
unfoldable pub create_or_extend_subscription : ℕ → UserTier → ℕ → ℕ → Members → Members × Mode
unfolding current_subscription apply_mode
create_or_extend_subscription user_id tier order_id now m =
    let current = current_subscription user_id m in
    let mode = classify current tier now in
    (apply_mode mode user_id tier order_id now current m, mode)

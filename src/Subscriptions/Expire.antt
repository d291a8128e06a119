-- ===== src/Subscriptions/Expire.antt =====
-- `expireSubscriptions` of src/modules/payments/subscription.service.ts: it starts the plans that are
-- due, ends the subscriptions that are past and takes the users whose plan is over to FREE. The
-- notifications and the log are left out.
use fashion_ai_be.Prelude.{
  ℕ, ◌+◌, ltb, leb, Bool, true, false, not, ◌&&◌, none, List, [], ◌∷◌, length, count, find_many,
  update_many, same, if◌then◌else◌,
}
use fashion_ai_be.Schema.Members.{
  UserTier, SubscriptionStatus, User, Subscription, Members, tier_keyed, subscription_keyed,
}
use fashion_ai_be.Subscriptions.Plans.{duration_ms, is_past}
use fashion_ai_be.Subscriptions.Renew.{set_tier, update_subscription}

-- `status: 'SCHEDULED', startsAt: { lte: now }`
abbrev pub is_due : ℕ → Subscription → Bool
is_due now s = same s.status SubscriptionStatus.scheduled && leb s.starts_at now

abbrev pub later : ℕ → ℕ → ℕ
later a b = if leb a b then b else a

abbrev pub activated_row : ℕ → Subscription → Subscription
activated_row expires_at s = record s {
  status = SubscriptionStatus.active;
  expires_at = expires_at;
}

-- one round of step A
unfoldable pub activate : ℕ → Subscription → Members → Members
activate now sub m =
    let expires_at = later sub.starts_at now + duration_ms in
    set_tier sub.user_id sub.tier expires_at
      (update_subscription sub.id (activated_row expires_at) m)

unfoldable pub activate_each : ℕ → List Subscription → Members → Members
activate_each now [] m = m
activate_each now (s ∷ ss) m = activate_each now ss (activate now s m)

-- `status: 'ACTIVE', expiresAt: { lt: now }`, with one value of `autoRenew`
abbrev pub is_over : ℕ → Bool → Subscription → Bool
is_over now auto_renew s =
    same s.status SubscriptionStatus.active
    && ltb s.expires_at now
    && (if auto_renew then s.auto_renew else not s.auto_renew)

-- step B
unfoldable pub close_over : ℕ → Members → Members
close_over now m = record m {
  subscriptions =
      update_many (is_over now true) (λ s. record s { status = SubscriptionStatus.expired })
        (update_many (is_over now false) (λ s. record s { status = SubscriptionStatus.cancelled })
          m.subscriptions);
}

-- `tierExpiresAt: { lt: now, not: null }, tier: { not: 'FREE' }`
abbrev pub is_lapsed : ℕ → User → Bool
is_lapsed now u = is_past now u.tier_expires_at && not (same u.tier UserTier.free)

-- step C
unfoldable pub free_lapsed : ℕ → Members → Members
free_lapsed now m = record m {
  users =
      update_many (is_lapsed now) (λ u. record u { tier = UserTier.free; tier_expires_at = none })
        m.users;
}

pub record ExpiryCounts : Type 0 where
  pub activated_subscriptions : ℕ
  pub cancelled_subscriptions : ℕ
  pub expired_subscriptions : ℕ
  pub downgraded_users : ℕ

unfoldable pub expire_subscriptions : ℕ → Members → Members × ExpiryCounts
expire_subscriptions now m =
    let due = find_many (is_due now) m.subscriptions in
    let m₁ = activate_each now due m in
    let m₂ = close_over now m₁ in
    (
      free_lapsed now m₂,
      record {
        activated_subscriptions = length due;
        cancelled_subscriptions = count (is_over now false) m₁.subscriptions;
        expired_subscriptions = count (is_over now true) (
            update_many (is_over now false)
              (λ s. record s { status = SubscriptionStatus.cancelled }) m₁.subscriptions);
        downgraded_users = count (is_lapsed now) m₂.users;
      },
    )

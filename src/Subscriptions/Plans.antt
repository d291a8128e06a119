-- ===== src/Subscriptions/Plans.antt =====
-- Prices, ranks and proration: src/common/constants/subscription-plans.constants.ts, and the price
-- that `createSubscriptionOrder` of src/modules/payments/payments.service.ts asks. The fractions of
-- the source are computed exactly here: a quotient is rounded up from the whole fraction.
use fashion_ai_be.Prelude.{
  ℕ, ◌+◌, ◌-◌, ◌*◌, ◌/◌, ltb, leb, ◌==◌, Bool, false, ◌&&◌, Option, none, some, List, [], ◌∷◌,
  find_many, same, if◌then◌else◌,
}
use fashion_ai_be.Schema.Members.{
  UserTier, SubscriptionStatus, Subscription, Members, subscription_keyed,
}

-- `TIER_PRICES`
unfoldable pub tier_price : UserTier → ℕ
tier_price UserTier.free = 0
tier_price UserTier.member = 34000
tier_price UserTier.vip = 99000

-- `TIER_RANK`
abbrev pub tier_rank : UserTier → ℕ
tier_rank UserTier.free = 0
tier_rank UserTier.member = 1
tier_rank UserTier.vip = 2

abbrev pub subscription_duration_days : ℕ
subscription_duration_days = 30

abbrev pub proration_round_vnd : ℕ
proration_round_vnd = 1000

abbrev pub proration_min_remaining_days : ℕ
proration_min_remaining_days = 1

abbrev pub ms_per_day : ℕ
ms_per_day = 1000 * 60 * 60 * 24

-- `setDate(getDate() + SUBSCRIPTION_DURATION_DAYS)`, where every day has 24 hours
abbrev pub duration_ms : ℕ
duration_ms = subscription_duration_days * ms_per_day

-- `roundUpVnd` of the fraction num / den, for den > 0
unfoldable pub round_up_vnd : ℕ → ℕ → ℕ
round_up_vnd num den =
    (num + (den * proration_round_vnd - 1)) / (den * proration_round_vnd) * proration_round_vnd

pub record UpgradeProration : Type 0 where
  pub old_tier : UserTier
  pub new_tier : UserTier
  pub remaining_days : ℕ
  pub credit : ℕ
  pub debit : ℕ
  pub net : ℕ

-- `calcUpgradeProration`; ℕ-subtraction is `Math.max(debit - credit, 0)`
unfoldable pub calc_upgrade_proration : UserTier → UserTier → ℕ → UpgradeProration
unfolding tier_price round_up_vnd
calc_upgrade_proration old_tier new_tier remaining_days =
    let credit = round_up_vnd (tier_price old_tier * remaining_days) subscription_duration_days in
    let debit = round_up_vnd (tier_price new_tier * remaining_days) subscription_duration_days in
    record {
      old_tier = old_tier;
      new_tier = new_tier;
      remaining_days = remaining_days;
      credit = credit;
      debit = debit;
      net = debit - credit;
    }

-- `isUpgrade`
abbrev pub is_upgrade : UserTier → UserTier → Bool
is_upgrade from_tier to_tier = ltb (tier_rank from_tier) (tier_rank to_tier)

-- `isDowngrade`
abbrev pub is_downgrade : UserTier → UserTier → Bool
is_downgrade from_tier to_tier = ltb (tier_rank to_tier) (tier_rank from_tier)

abbrev pub is_past : ℕ → Option ℕ → Bool
is_past now none = false
is_past now (some t) = ltb t now

-- `resolveEffectiveTier`; a missing tier is FREE
unfoldable pub resolve_effective_tier : ℕ → Option UserTier → Option ℕ → UserTier
resolve_effective_tier now tier expires_at =
    if is_past now expires_at
    then UserTier.free
    else elim tier [ none ↦ UserTier.free | some t ↦ t ]

-- the one that expires last: `findFirst` with `orderBy: { expiresAt: 'desc' }`
abbrev pub later_of : Subscription → Option Subscription → Subscription
later_of s none = s
later_of s (some t) = if ltb s.expires_at t.expires_at then t else s

abbrev pub latest : List Subscription → Option Subscription
latest [] = none
latest (s ∷ ss) = some (later_of s (latest ss))

-- `Math.ceil((expiresAt - now) / (1000 * 60 * 60 * 24))`, for an expiry that is not past
abbrev pub days_left : ℕ → ℕ → ℕ
days_left expires_at now = (expires_at - now + (ms_per_day - 1)) / ms_per_day

amount_for : ℕ → UserTier → Option Subscription → ℕ
unfolding calc_upgrade_proration
amount_for now target none = tier_price target
amount_for now target (some current) =
    let days = days_left current.expires_at now in
    let net = (calc_upgrade_proration current.tier target days).net in
    if is_upgrade current.tier target && ltb proration_min_remaining_days days && ltb 0 net
    then net
    else tier_price target

-- the subscription that is running: ACTIVE and `expiresAt: { gte: now }`
unfoldable pub running : ℕ → ℕ → Members → Option Subscription
running user_id now m = latest (
    find_many
      (λ s. s.user_id == user_id && same s.status SubscriptionStatus.active && leb now s.expires_at)
      m.subscriptions)

-- The amount of the order that `createSubscriptionOrder` makes, once its guards are passed.
unfoldable pub checkout_amount : ℕ → UserTier → ℕ → Members → ℕ
unfolding amount_for running
checkout_amount user_id target now m = amount_for now target (running user_id now m)

-- ===== src/Schema/Members.antt =====
-- `enum UserTier`, `enum SubscriptionStatus` and the columns of `model User` and
-- `model Subscription` that the subscription code reads or writes (prisma/schema.prisma).
-- Dates are milliseconds; an id is a number, since the code only compares it.
use fashion_ai_be.Prelude.{ℕ, Bool, Option, List, ◌≡◌, refl, sym, ap, ◌∙◌, zero, suc, Keyed}

pub data UserTier : Type 0 where
  free member vip : UserTier

pub data SubscriptionStatus : Type 0 where
  active scheduled expired cancelled : SubscriptionStatus

abbrev pub tier_key : UserTier → ℕ
tier_key UserTier.free = 0
tier_key UserTier.member = 1
tier_key UserTier.vip = 2

abbrev of_tier_key : ℕ → UserTier
of_tier_key zero = UserTier.free
of_tier_key (suc zero) = UserTier.member
of_tier_key _ = UserTier.vip

of_tier_key-tier_key : (t : UserTier) → of_tier_key (tier_key t) ≡ t
of_tier_key-tier_key UserTier.free = refl
of_tier_key-tier_key _ = refl

pub tier_key-injective : (s t : UserTier) → tier_key s ≡ tier_key t → s ≡ t
tier_key-injective s t h = sym (of_tier_key-tier_key s) ∙ ap of_tier_key h ∙ of_tier_key-tier_key t

instance abbrev pub tier_keyed : Keyed UserTier
tier_keyed = record { key = tier_key; key-injective = tier_key-injective }

abbrev pub subscription_key : SubscriptionStatus → ℕ
subscription_key SubscriptionStatus.active = 0
subscription_key SubscriptionStatus.scheduled = 1
subscription_key SubscriptionStatus.expired = 2
subscription_key SubscriptionStatus.cancelled = 3

abbrev of_subscription_key : ℕ → SubscriptionStatus
of_subscription_key zero = SubscriptionStatus.active
of_subscription_key (suc zero) = SubscriptionStatus.scheduled
of_subscription_key (suc (suc zero)) = SubscriptionStatus.expired
of_subscription_key _ = SubscriptionStatus.cancelled

of_subscription_key-subscription_key :
    (t : SubscriptionStatus) → of_subscription_key (subscription_key t) ≡ t
of_subscription_key-subscription_key SubscriptionStatus.active = refl
of_subscription_key-subscription_key _ = refl

pub subscription_key-injective :
    (s t : SubscriptionStatus) → subscription_key s ≡ subscription_key t → s ≡ t
subscription_key-injective s t h =
    sym (of_subscription_key-subscription_key s)
    ∙ ap of_subscription_key h
    ∙ of_subscription_key-subscription_key t

instance abbrev pub subscription_keyed : Keyed SubscriptionStatus
subscription_keyed = record { key = subscription_key; key-injective = subscription_key-injective }

pub record User : Type 0 where
  pub id : ℕ
  pub tier : UserTier
  pub tier_expires_at : Option ℕ

pub record Subscription : Type 0 where
  pub id : ℕ
  pub user_id : ℕ
  pub tier : UserTier
  pub order_id : ℕ
  pub status : SubscriptionStatus
  pub auto_renew : Bool
  pub starts_at : ℕ
  pub expires_at : ℕ

-- The tables `users` and `subscriptions`; `next_id` stands for the database's fresh ids.
pub record Members : Type 0 where
  pub users : List User
  pub subscriptions : List Subscription
  pub next_id : ℕ

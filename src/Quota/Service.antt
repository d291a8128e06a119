-- ===== src/Quota/Service.antt =====
-- `assertQuota` and `consumeQuota` of src/common/services/quota.service.ts with
-- src/common/constants/ai-quota.constants.ts, for one user, one action and one day. The messages are
-- left out; `is_synced` is whether the write to the database, which nothing waits for, succeeds.
use fashion_ai_be.Prelude.{ℕ, ◌+◌, ltb, Bool, Option, none, some, if◌then◌else◌}
use fashion_ai_be.Schema.Members.{UserTier}
use fashion_ai_be.Subscriptions.Plans.{is_past}

pub data AiActionName : Type 0 where
  try_on stylist chatbot : AiActionName

-- `AI_ACTION_LIMITS`; `none` is `Infinity`
abbrev pub ai_action_limits : AiActionName → UserTier → Option ℕ
ai_action_limits AiActionName.try_on UserTier.free = some 0
ai_action_limits AiActionName.try_on UserTier.member = some 5
ai_action_limits AiActionName.try_on UserTier.vip = some 10
ai_action_limits AiActionName.stylist UserTier.free = some 3
ai_action_limits AiActionName.stylist UserTier.member = some 20
ai_action_limits AiActionName.stylist UserTier.vip = none
ai_action_limits AiActionName.chatbot UserTier.free = some 50
ai_action_limits AiActionName.chatbot UserTier.member = some 200
ai_action_limits AiActionName.chatbot UserTier.vip = none

-- The counter in Redis under the key of the day, and the row of `daily_usage`.
pub record Usage : Type 0 where
  pub cached : Option ℕ
  pub stored : Option ℕ

pub data Verdict : Type 0 where
  allowed subscription_required quota_exceeded : Verdict

abbrev pub resolved_tier : Option UserTier → UserTier
resolved_tier none = UserTier.free
resolved_tier (some t) = t

-- `effectiveLimit`
abbrev pub effective_limit : AiActionName → Option UserTier → Option ℕ → ℕ → Option ℕ
effective_limit action tier expires_at now =
    if is_past now expires_at
    then ai_action_limits action UserTier.free
    else ai_action_limits action (resolved_tier tier)

abbrev pub count_or_zero : Option ℕ → ℕ
count_or_zero none = 0
count_or_zero (some n) = n

-- what is used up: the counter, or the row where there is no counter
abbrev pub used : Usage → ℕ
used u = elim u.cached [ some n ↦ n | none ↦ count_or_zero u.stored ]

-- the read of the usage fills the counter
abbrev pub load : Usage → Usage
load u = record u { cached = some (used u) }

assert_limit : Option ℕ → ℕ → Usage → Usage × Verdict
assert_limit none count u = (u, Verdict.allowed)
assert_limit (some limit) count u =
    if ltb limit 1
    then (u, Verdict.subscription_required)
    else if ltb limit (used u + count)
    then (load u, Verdict.quota_exceeded)
    else (load u, Verdict.allowed)

-- `assertQuota`
unfoldable pub assert_quota :
    AiActionName → Option UserTier → Option ℕ → ℕ → ℕ → Usage → Usage × Verdict
unfolding assert_limit
assert_quota action tier expires_at now count u =
    assert_limit (effective_limit action tier expires_at now) count u

-- `consumeQuota`: `incrBy` counts from 0 where there is no counter
unfoldable pub consume_quota : ℕ → Bool → Usage → Usage
consume_quota count is_synced u = record u {
  cached = some (count_or_zero u.cached + count);
  stored = if is_synced then some (count_or_zero u.stored + count) else u.stored;
}

-- ===== src/Tests/Plans.antt =====
-- Paid plans and the limits that come with them.
use fashion_ai_be.Prelude.{
  ℕ, ◌+◌, ◌*◌, ◌<◌, ◌≤◌, ◌%◌, ◌≡◌, refl, true, false, none, some, [], ◌∷◌, arith, All, find_by,
}
use fashion_ai_be.Schema.Members.{UserTier, SubscriptionStatus, User, Subscription, Members}
use fashion_ai_be.Subscriptions.Plans.{
  tier_price, ms_per_day, running, checkout_amount, duration_ms,
}
use fashion_ai_be.Subscriptions.Renew.{current_subscription, create_or_extend_subscription}
use fashion_ai_be.Subscriptions.Entitlement.{
  user_id_of, entitled, renewal_adds_duration, payment_never_shortens,
}
use fashion_ai_be.Subscriptions.AutoRenew.{cancel_auto_renew, resume_auto_renew}
use fashion_ai_be.Subscriptions.Toggle.{resume-cancel}
use fashion_ai_be.Orders.Tx.{ok}
use fashion_ai_be.Subscriptions.Proration.{proration_error}
use fashion_ai_be.Subscriptions.LastDay.{last_day_upgrade}
use fashion_ai_be.Subscriptions.Expire.{expire_subscriptions, is_lapsed}
use fashion_ai_be.Subscriptions.Lapse.{IsSettled, expire_subscriptions_complete}
use fashion_ai_be.Quota.Service.{AiActionName, Usage, Verdict, used, assert_quota, consume_quota}
use fashion_ai_be.Quota.Limits.{admitted_within_limit, concurrent_use_exceeds}

abbrev customer : User
customer = record { id = 7; tier = UserTier.member; tier_expires_at = some 1000 }

abbrev plan : Subscription
plan = record {
  id = 1;
  user_id = 7;
  tier = UserTier.member;
  order_id = 1;
  status = SubscriptionStatus.active;
  auto_renew = true;
  starts_at = 0;
  expires_at = 1000;
}

abbrev vip_plan : Subscription
vip_plan = record plan { tier = UserTier.vip }

abbrev members : Members
members = record { users = customer ∷ []; subscriptions = plan ∷ []; next_id = 2 }

abbrev vips : Members
vips = record members { subscriptions = vip_plan ∷ [] }

current : current_subscription 7 members ≡ some plan
unfolding current_subscription
current = refl

vip_current : current_subscription 7 vips ≡ some vip_plan
unfolding current_subscription
vip_current = refl

runs : running 7 500 members ≡ some plan
unfolding running
runs = refl

resume_example : resume_auto_renew 7 500 (cancel_auto_renew 7 500 members).0 ≡ (members, ok true)
resume_example = resume-cancel 7 500 members {s = plan} (refl, tt) runs refl

renewal_example :
    find_by user_id_of 7 (create_or_extend_subscription 7 UserTier.member 9 500 members).0.users
    ≡ some (entitled UserTier.member (1000 + duration_ms) customer)
renewal_example =
    renewal_adds_duration 7 UserTier.member 9 500 members {s = plan} {u = customer} current refl
      refl refl refl

never_shortens_example :
    (t : ℕ) × (find_by user_id_of 7
        (create_or_extend_subscription 7 UserTier.vip 9 500 members).0.users
      ≡ some (entitled UserTier.vip t customer))
    × (1000 ≤ t)
never_shortens_example =
    payment_never_shortens 7 UserTier.vip 9 500 members {s = plan} {u = customer} current refl refl
      refl refl

last_day_example :
    (checkout_amount 7 UserTier.vip 500 members ≡ tier_price UserTier.vip)
    × (find_by user_id_of 7 (create_or_extend_subscription 7 UserTier.vip 9 500 members).0.users
        ≡ some (entitled UserTier.vip 1000 customer))
last_day_example =
    last_day_upgrade 7 UserTier.vip 9 500 members {s = plan} {u = customer} runs current refl
      (omega arith) (omega arith) refl refl

abbrev early : ℕ
early = 1000

abbrev long_plan : Subscription
long_plan = record plan { expires_at = early + 17 * ms_per_day }

abbrev long_members : Members
long_members = record members { subscriptions = long_plan ∷ [] }

runs_long : running 7 early long_members ≡ some long_plan
unfolding running
runs_long = refl

proration_example :
    let price = checkout_amount 7 UserTier.vip early long_members in
    (tier_price UserTier.vip * 17 < tier_price UserTier.member * 17 + price * 30 + 30000)
    × (tier_price UserTier.member * 17 + price * 30 < tier_price UserTier.vip * 17 + 30000)
    × (price % 1000 ≡ 0)
proration_example =
    proration_error 7 UserTier.vip early long_members {s = long_plan} runs_long refl (omega arith)

lapse_example :
    let m' = (expire_subscriptions 2000 members).0 in
    All (IsSettled 2000) m'.subscriptions × All (λ u. is_lapsed 2000 u ≡ false) m'.users
lapse_example = expire_subscriptions_complete 2000 members

abbrev usage : Usage
usage = record { cached = some 4; stored = some 4 }

allowed :
    (assert_quota AiActionName.try_on (some UserTier.member) none 500 1 usage).1 ≡ Verdict.allowed
unfolding assert_quota
allowed = refl

within_example :
    let u' =
      consume_quota 1 true
        (assert_quota AiActionName.try_on (some UserTier.member) none 500 1 usage).0 in
    (used u' ≡ used usage + 1) × (used u' ≤ 5)
within_example =
    admitted_within_limit AiActionName.try_on (some UserTier.member) none 500 1 5 true usage refl
      allowed

concurrent_example :
    let u₁ = (assert_quota AiActionName.try_on (some UserTier.member) none 500 1 usage).0 in
    let second = assert_quota AiActionName.try_on (some UserTier.member) none 500 1 u₁ in
    (second.1 ≡ Verdict.allowed) × (used (consume_quota 1 true (consume_quota 1 true second.0)) ≡ 6)
concurrent_example =
    concurrent_use_exceeds AiActionName.try_on (some UserTier.member) none 500 5 usage refl refl

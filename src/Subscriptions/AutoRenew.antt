-- ===== src/Subscriptions/AutoRenew.antt =====
-- `cancelAutoRenew`, `resumeAutoRenew` and `cancelScheduledSubscription` of
-- src/modules/payments/subscription.service.ts. The notifications are left out.
use fashion_ai_be.Prelude.{
  ℕ, ◌==◌, ltb, Bool, true, false, not, ◌&&◌, Option, none, some, List, [], ◌∷◌, count, find_many,
  update_many, same, if◌then◌else◌,
}
use fashion_ai_be.Schema.Members.{SubscriptionStatus, Subscription, Members, subscription_keyed}
use fashion_ai_be.Orders.Tx.{HttpError, Result, ok, err}
use fashion_ai_be.Subscriptions.Plans.{running}
use fashion_ai_be.Subscriptions.Renew.{update_subscription}

-- `{ id, autoRenew }` in a condition
abbrev pub has_auto_renew : ℕ → Bool → Subscription → Bool
has_auto_renew id on s = s.id == id && (if on then s.auto_renew else not s.auto_renew)

abbrev pub with_auto_renew : Bool → Subscription → Subscription
with_auto_renew on s = record s { auto_renew = on }

-- what both do once the running subscription is read: the flag becomes `on`
unfoldable pub switch_found : Option Subscription → Bool → Members → Members × Result Bool
switch_found none on m = (m, err HttpError.not_found)
switch_found (some current) on m =
    if count (has_auto_renew current.id (not on)) m.subscriptions == 0
    then (m, err HttpError.bad_request)
    else (
      record m {
        subscriptions =
            update_many (has_auto_renew current.id (not on)) (with_auto_renew on) m.subscriptions;
      },
      ok on,
    )

-- `cancelAutoRenew`
unfoldable pub cancel_auto_renew : ℕ → ℕ → Members → Members × Result Bool
cancel_auto_renew user_id now m = switch_found (running user_id now m) false m

-- `resumeAutoRenew`
unfoldable pub resume_auto_renew : ℕ → ℕ → Members → Members × Result Bool
resume_auto_renew user_id now m = switch_found (running user_id now m) true m

abbrev earlier_of : Subscription → Option Subscription → Subscription
earlier_of s none = s
earlier_of s (some t) = if ltb t.starts_at s.starts_at then t else s

abbrev earliest : List Subscription → Option Subscription
earliest [] = none
earliest (s ∷ ss) = some (earlier_of s (earliest ss))

abbrev is_scheduled : Subscription → Bool
is_scheduled s = same s.status SubscriptionStatus.scheduled

resume_running : Option Subscription → Members → Members
resume_running none m = m
resume_running (some current) m = update_subscription current.id (with_auto_renew true) m

cancel_scheduled_found : Option Subscription → ℕ → ℕ → Members → Members × Result ℕ
unfolding resume_running
cancel_scheduled_found none user_id now m = (m, err HttpError.not_found)
cancel_scheduled_found (some scheduled) user_id now m =
    if count (λ s. s.id == scheduled.id && is_scheduled s) m.subscriptions == 0
    then (m, err HttpError.bad_request)
    else let m₁ = record m {
      subscriptions =
          update_many (λ s. s.id == scheduled.id && is_scheduled s)
            (λ s. record s { status = SubscriptionStatus.cancelled }) m.subscriptions;
    } in
      (resume_running (running user_id now m₁) m₁, ok scheduled.id)

-- `cancelScheduledSubscription`
unfoldable pub cancel_scheduled_subscription : ℕ → ℕ → Members → Members × Result ℕ
unfolding cancel_scheduled_found
cancel_scheduled_subscription user_id now m =
    cancel_scheduled_found
      (earliest (find_many (λ s. s.user_id == user_id && is_scheduled s) m.subscriptions)) user_id
      now m

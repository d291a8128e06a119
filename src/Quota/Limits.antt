-- ===== src/Quota/Limits.antt =====
-- What the limits of AI actions promise.
use fashion_ai_be.Prelude.{
  ℕ, ◌+◌, ◌≤◌, ◌≡◌, refl, inl, inr, ltb, Bool, true, false, Option, some, arith, Bool-cases,
}
use fashion_ai_be.Schema.Members.{UserTier}
use fashion_ai_be.Subscriptions.Plans.{is_past}
use fashion_ai_be.Quota.Service.{
  AiActionName, Usage, Verdict, effective_limit, used, assert_quota, consume_quota,
}

-- An action that `assertQuota` admits and that is then counted leaves the use of the day within the
-- limit of the user's plan, whether or not the write to the database succeeds.
pub admitted_within_limit :
    (action : AiActionName) (tier : Option UserTier) (expires_at : Option ℕ) (now count limit : ℕ)
    (is_synced : Bool) (u : Usage)
    → effective_limit action tier expires_at now ≡ some limit
    → (assert_quota action tier expires_at now count u).1 ≡ Verdict.allowed
    → let u' = consume_quota count is_synced (assert_quota action tier expires_at now count u).0 in
      (used u' ≡ used u + count) × (used u' ≤ limit)
unfolding assert_quota consume_quota
admitted_within_limit action tier expires_at now count limit is_synced u e h =
    elim (Bool-cases (ltb limit 1)) [
      | inl barred ↦ absurd (ground (arith, rw (e, barred) at h))
      | inr open_to_user ↦ elim (Bool-cases (ltb limit (used u + count))) [
        | inl over ↦ absurd (ground (arith, rw (e, open_to_user, over) at h))
        | inr within ↦ rw (e, open_to_user, within) (refl, ground arith)
      ]
    ]

-- A user whose plan is past is never admitted to try clothes on, and the counter stays as it is.
lapsed_try_on_refused :
    (tier : Option UserTier) (expires_at : Option ℕ) (now count : ℕ) (u : Usage)
    → is_past now expires_at ≡ true
    → assert_quota AiActionName.try_on tier expires_at now count u
      ≡ (u, Verdict.subscription_required)
unfolding assert_quota
lapsed_try_on_refused tier expires_at now count u h = rw h refl

-- Where one use is left, two calls that are both admitted before either is counted go over the limit:
-- the second is admitted too, and the counter then stands one above the limit.
pub concurrent_use_exceeds :
    (action : AiActionName) (tier : Option UserTier) (expires_at : Option ℕ) (now limit : ℕ)
    (u : Usage)
    → effective_limit action tier expires_at now ≡ some limit
    → used u + 1 ≡ limit
    → let u₁ = (assert_quota action tier expires_at now 1 u).0 in
      let second = assert_quota action tier expires_at now 1 u₁ in
      (second.1 ≡ Verdict.allowed)
      × (used (consume_quota 1 true (consume_quota 1 true second.0)) ≡ limit + 1)
unfolding assert_quota consume_quota
concurrent_use_exceeds action tier expires_at now limit u e last =
    let admitted : ltb limit 1 ≡ false = ground arith in
    let within : ltb limit (used u + 1) ≡ false = ground arith in
    rw (e, admitted, within) (rw within (refl, ground arith))

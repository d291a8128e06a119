-- ===== src/Subscriptions/Lapse.antt =====
-- What a run of the job on subscriptions leaves behind.
use fashion_ai_be.Prelude.{
  ℕ, ◌+◌, ◌==◌, ◌≡◌, ltb, Bool, true, false, ◌&&◌, none, List, [], ◌∷◌, arith, All, All-map,
  All-update_many, any, find_many, update_many, same, if◌then◌else◌,
}
use fashion_ai_be.Schema.Members.{
  UserTier, SubscriptionStatus, User, Subscription, Members, tier_keyed, subscription_keyed,
}
use fashion_ai_be.Subscriptions.Plans.{duration_ms}
use fashion_ai_be.Subscriptions.Expire.{
  is_due, later, activated_row, activate, activate_each, is_over, close_over, is_lapsed,
  free_lapsed, expire_subscriptions,
}

abbrev HasId : List Subscription → Subscription → Type 0
HasId ss s = any (λ x. x.id == s.id) ss ≡ true

selected_HasId :
    (q : Subscription → Bool) (xs : List Subscription)
    → All (λ s. q s ≡ true → HasId (find_many q xs) s) xs
selected_HasId q [] = tt
selected_HasId q (x ∷ xs) = (
  (λ h. ground arith),
  All-map (λ s. q s ≡ true → HasId (find_many q xs) s) _ xs (λ s ih h. ground (arith, ih h))
      (selected_HasId q xs),
)

activate_each_complete :
    (now : ℕ) (ss : List Subscription) (m : Members)
    → All (λ s. is_due now s ≡ true → HasId ss s) m.subscriptions
    → All (λ s. is_due now s ≡ false) (activate_each now ss m).subscriptions
unfolding activate_each activate
activate_each_complete now [] m h =
    All-map (λ s. is_due now s ≡ true → HasId [] s) _ m.subscriptions (λ s f. ground (arith, f)) h
activate_each_complete now (x ∷ ss) m h = activate_each_complete now ss (activate now x m) (
    All-update_many _ _ (λ s. s.id == x.id) (activated_row (later x.starts_at now + duration_ms))
      m.subscriptions (λ s f. ground (arith, f)) h)

abbrev freed : User → User
freed u = record u { tier = UserTier.free; tier_expires_at = none }

freed-All :
    (now : ℕ) (us : List User)
    → All (λ u. is_lapsed now u ≡ false) (update_many (is_lapsed now) freed us)
freed-All now [] = tt
freed-All now (u ∷ us) = (ground arith, freed-All now us)

-- A subscription that is neither waiting to begin nor past its end.
abbrev pub IsSettled : ℕ → Subscription → Type 0
IsSettled now s =
    (is_due now s ≡ false)
    × ((same s.status SubscriptionStatus.active && ltb s.expires_at now) ≡ false)

abbrev closed_as : SubscriptionStatus → Subscription → Subscription
closed_as status s = record s { status = status }

cancel-kept :
    (now : ℕ) (s : Subscription)
    → is_due now s ≡ false
    → let t = if is_over now false s then closed_as SubscriptionStatus.cancelled s else s in
      (is_due now t ≡ false) × (is_over now false t ≡ false)
cancel-kept now s h = ground arith

expire-IsSettled :
    (now : ℕ) (s : Subscription)
    → (is_due now s ≡ false) × (is_over now false s ≡ false)
    → IsSettled now (if is_over now true s then closed_as SubscriptionStatus.expired s else s)
expire-IsSettled now s h = ground arith

-- After a run of `expireSubscriptions` every subscription is settled: none that is due still waits, and none that is past is
-- ACTIVE. No user whose plan is past is still on a paid one.
pub expire_subscriptions_complete :
    (now : ℕ) (m : Members)
    → let m' = (expire_subscriptions now m).0 in
      All (IsSettled now) m'.subscriptions × All (λ u. is_lapsed now u ≡ false) m'.users
unfolding expire_subscriptions close_over free_lapsed
expire_subscriptions_complete now m =
    let due = find_many (is_due now) m.subscriptions in
    let m₁ = activate_each now due m in
    let none_due = activate_each_complete now due m (selected_HasId (is_due now) m.subscriptions) in
    (
      All-update_many _ (IsSettled now) (is_over now true) (closed_as SubscriptionStatus.expired) _
          (expire-IsSettled now)
          (All-update_many _ _ (is_over now false) (closed_as SubscriptionStatus.cancelled)
            m₁.subscriptions (cancel-kept now) none_due),
      freed-All now m₁.users,
    )

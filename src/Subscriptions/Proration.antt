-- ===== src/Subscriptions/Proration.antt =====
-- What an upgrade costs.
use fashion_ai_be.Prelude.{ℕ, ◌+◌, ◌*◌, ◌%◌, ◌<◌, ◌≤◌, ◌≡◌, refl, ltb, true, some, arith}
use fashion_ai_be.Schema.Members.{UserTier, Subscription, Members}
use fashion_ai_be.Subscriptions.Plans.{
  tier_price, round_up_vnd, calc_upgrade_proration, is_upgrade, proration_min_remaining_days,
  days_left, running, checkout_amount,
}

round_up_bounds :
    (n : ℕ)
    → (n ≤ round_up_vnd n 30 * 30)
      × (round_up_vnd n 30 * 30 < n + 30000)
      × (round_up_vnd n 30 % 1000 ≡ 0)
unfolding round_up_vnd
round_up_bounds n = ground arith

-- The net price of an upgrade for a number of days is within 1,000 VND of the difference between the
-- two prices for these days, and a multiple of 1,000; from two days on it is above zero.
net_error :
    (old_tier new_tier : UserTier) (days : ℕ)
    → is_upgrade old_tier new_tier ≡ true
    → let net = (calc_upgrade_proration old_tier new_tier days).net in
      (tier_price new_tier * days < tier_price old_tier * days + net * 30 + 30000)
      × (tier_price old_tier * days + net * 30 < tier_price new_tier * days + 30000)
      × (net % 1000 ≡ 0)
      × (1 < days → 0 < net)
unfolding calc_upgrade_proration tier_price
net_error UserTier.free UserTier.member days h =
    ground (arith, round_up_bounds (34000 * days), round_up_bounds (0 * days))
net_error UserTier.free UserTier.vip days h =
    ground (arith, round_up_bounds (99000 * days), round_up_bounds (0 * days))
net_error UserTier.member UserTier.vip days h =
    ground (arith, round_up_bounds (34000 * days), round_up_bounds (99000 * days))
net_error UserTier.free UserTier.free days h = ground arith
net_error UserTier.member _ days h = ground arith
net_error UserTier.vip _ days h = ground arith

-- The price that the checkout asks for an upgrade of a running plan with more than one day left, as
-- the code counts its days, differs by less than 1,000 VND from the difference between the prices of
-- the two plans for these days, and is a multiple of 1,000.
pub proration_error :
    (user_id : ℕ) (tier : UserTier) (now : ℕ) (m : Members) {s : Subscription}
    → running user_id now m ≡ some s
    → is_upgrade s.tier tier ≡ true
    → 1 < days_left s.expires_at now
    → let days = days_left s.expires_at now in
      let price = checkout_amount user_id tier now m in
      (tier_price tier * days < tier_price s.tier * days + price * 30 + 30000)
      × (tier_price s.tier * days + price * 30 < tier_price tier * days + 30000)
      × (price % 1000 ≡ 0)
unfolding checkout_amount
proration_error user_id tier now m {s} current up some_days =
    let (low, high, whole, positive) = net_error s.tier tier (days_left s.expires_at now) up in
    let net = (calc_upgrade_proration s.tier tier (days_left s.expires_at now)).net in
    let asked : checkout_amount user_id tier now m ≡ net =
      let above : ltb 0 net ≡ true = ground (arith, positive some_days) in
      let many : ltb proration_min_remaining_days (days_left s.expires_at now) ≡ true =
        ground arith in
      rw current (rw (up, many, above) refl) in
    rw asked (low, high, whole)

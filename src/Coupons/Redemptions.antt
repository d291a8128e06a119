-- ===== src/Coupons/Redemptions.antt =====
-- Holding and giving back the uses of a coupon: src/common/utils/coupon-redemption.util.ts and the
-- coupon part of the transaction of `create` in src/modules/orders/orders.service.ts.
use fashion_ai_be.Prelude.{
  ℕ, ◌+◌, ◌-◌, ◌==◌, leb, ltb, Bool, true, false, ◌&&◌, Option, none, some, ◌∷◌, List, any, find,
  count, update_many, delete_many, if◌then◌else◌,
}
use fashion_ai_be.Schema.Shop.{Db, Coupon, CouponRedemption}

-- `releaseOrderCouponRedemption`; ℕ-subtraction is `GREATEST(used_count - 1, 0)`
release_found : Option CouponRedemption → Db → Db × Bool
release_found none db = (db, false)
release_found (some redemption) db =
    if count (λ (r : CouponRedemption). r.id == redemption.id) db.redemptions == 0
    then (db, false)
    else (
      record db {
        redemptions = delete_many (λ r. r.id == redemption.id) db.redemptions;
        coupons =
            update_many (λ c. c.id == redemption.coupon_id)
              (λ c. record c { used_count = c.used_count - 1 }) db.coupons;
      },
      true,
    )

unfoldable pub release_order_coupon_redemption : ℕ → Db → Db × Bool
unfolding release_found
release_order_coupon_redemption order_id db =
    release_found (find (λ r. r.order_id == order_id) db.redemptions) db

pub data ClaimError : Type 0 where
  coupon_exhausted coupon_user_limit order_redeemed : ClaimError

pub data Claim : Type 0 where
  claimed : Db → Claim
  refused : ClaimError → Claim

abbrev pub opt_leb : Option ℕ → ℕ → Bool
opt_leb none at = true
opt_leb (some t) at = leb t at

abbrev pub leb_opt : ℕ → Option ℕ → Bool
leb_opt at none = true
leb_opt at (some t) = leb at t

abbrev pub ltb_opt : ℕ → Option ℕ → Bool
ltb_opt n none = true
ltb_opt n (some t) = ltb n t

-- the WHERE clause of the UPDATE
unfoldable pub is_claimable : ℕ → Coupon → Bool
is_claimable at c =
    c.is_active
    && opt_leb c.starts_at at
    && leb_opt at c.expires_at
    && ltb_opt c.used_count c.usage_limit

-- `orderId @unique` of a redemption
abbrev pub is_redeemed : ℕ → List CouponRedemption → Bool
is_redeemed order_id rs = any (λ (r : CouponRedemption). r.order_id == order_id) rs

abbrev pub redemption_of : ℕ → ℕ → ℕ → Db → CouponRedemption
redemption_of coupon_id user_id order_id db = record {
  id = db.next_id;
  coupon_id = coupon_id;
  user_id = user_id;
  order_id = order_id;
}

-- `couponRedemption.create`, which fails where the order holds a redemption
abbrev pub redeem : ℕ → ℕ → ℕ → Db → Claim
redeem coupon_id user_id order_id db =
    if is_redeemed order_id db.redemptions
    then refused order_redeemed
    else claimed (record db {
      redemptions = redemption_of coupon_id user_id order_id db ∷ db.redemptions;
      next_id = db.next_id + 1;
    })

-- what follows the UPDATE, on the row that it returned
unfoldable pub claim_returned : ℕ → ℕ → ℕ → Option Coupon → Db → Claim
claim_returned coupon_id user_id order_id none db = refused coupon_exhausted
claim_returned coupon_id user_id order_id (some c) db =
    if ltb_opt
      (count (λ (r : CouponRedemption). r.coupon_id == coupon_id && r.user_id == user_id)
        db.redemptions)
      c.usage_limit_per_user
    then redeem coupon_id user_id order_id db
    else refused coupon_user_limit

-- The claim of one use for an order that the same transaction has created. `refused` is an
-- exception, which undoes the transaction.
unfoldable pub claim_coupon : ℕ → ℕ → ℕ → ℕ → Db → Claim
unfolding claim_returned is_claimable
claim_coupon coupon_id user_id order_id at db =
    let test : Coupon → Bool = λ c. c.id == coupon_id && is_claimable at c in
    let taken : Coupon → Coupon = λ c. record c { used_count = c.used_count + 1 } in
    claim_returned coupon_id user_id order_id (find test db.coupons)
      (record db { coupons = update_many test taken db.coupons })

-- ===== src/Orders/Redeemable.antt =====
-- From the price of an order to the claim of its coupon in `create` of
-- src/modules/orders/orders.service.ts.
use fashion_ai_be.Prelude.{
  ℕ, ◌+◌, ◌==◌, ◌≡◌, refl, inl, inr, true, false, ◌∷◌, ◌&&◌, Option, none, some, arith, find,
  find_by-find, find-key_and, count, update_many, Unique, Bool-cases,
}
use mathlib.Core.Path.{subst}
use fashion_ai_be.Schema.Shop.{Db, Coupon, CouponRedemption}
use fashion_ai_be.Coupons.Redemptions.{
  claimed, ltb_opt, is_claimable, claim_returned, is_redeemed, redemption_of, claim_coupon,
}
use fashion_ai_be.Orders.Tx.{ok}
use fashion_ai_be.Orders.Pricing.{Discount, discount_found, code_of, resolve_discount_amount}

abbrev pub coupon_id_of : Coupon → ℕ
coupon_id_of c = c.id

-- How often a customer has used a coupon.
abbrev used_by : ℕ → ℕ → Db → ℕ
used_by coupon_id user_id db =
    count (λ (r : CouponRedemption). r.coupon_id == coupon_id && r.user_id == user_id)
      db.redemptions

accepted_coupon :
    (found : Option Coupon) (items_total user_id at : ℕ) (db : Db) {d : Discount} {id : ℕ}
    → discount_found found items_total user_id at db ≡ ok d
    → d.coupon_id ≡ some id
    → (c : Coupon) × (found ≡ some c)
      × (c.id ≡ id)
      × (is_claimable at c ≡ true)
      × (ltb_opt (used_by c.id user_id db) c.usage_limit_per_user ≡ true)
unfolding discount_found is_claimable
accepted_coupon none items_total user_id at db h e = cc
accepted_coupon (some c) items_total user_id at db h e =
    (c, refl, ground arith, ground arith, ground arith)

-- A coupon that the price of an order takes into account is claimed by the order, where nothing is
-- written in between and the order holds no redemption yet, as it was just created: the claim of one
-- use succeeds and records one redemption, of that coupon, customer and order.
pub accepted_coupon_claimed :
    (normalize : ℕ → ℕ) (coupon_code : Option ℕ) (items_total user_id order_id at : ℕ) (db : Db)
    {d : Discount} {id : ℕ}
    → Unique coupon_id_of db.coupons
    → resolve_discount_amount normalize coupon_code items_total user_id at db ≡ ok d
    → d.coupon_id ≡ some id
    → is_redeemed order_id db.redemptions ≡ false
    → (db' : Db) × (claim_coupon id user_id order_id at db ≡ claimed db')
      × (db'.redemptions ≡ redemption_of id user_id order_id db ∷ db.redemptions)
unfolding resolve_discount_amount claim_coupon claim_returned
accepted_coupon_claimed normalize coupon_code items_total user_id order_id at db {d} {id} u h e
      new_order =
    let code = code_of normalize coupon_code in
    elim (Bool-cases (code == 0)) [
      | inl no_code ↦ absurd (ground (arith, rw no_code at h))
      | inr given ↦
          let (c, found, same, claimable, within) =
            accepted_coupon (find (λ (c : Coupon). c.code == code) db.coupons) items_total user_id
              at db {d = d} {id = id} (rw given at h) e in
          let by_id =
            find_by-find coupon_id_of (λ (c : Coupon). c.code == code) db.coupons u found in
          let row = find-key_and coupon_id_of c.id (is_claimable at) db.coupons by_id claimable u in
          subst
            (λ k.
              (db' : Db) × (claim_coupon k user_id order_id at db ≡ claimed db')
              × (db'.redemptions ≡ redemption_of k user_id order_id db ∷ db.redemptions))
            same
            (
              record db {
                coupons =
                    update_many (λ x. x.id == c.id && is_claimable at x)
                      (λ x. record x { used_count = x.used_count + 1 }) db.coupons;
                redemptions = redemption_of c.id user_id order_id db ∷ db.redemptions;
                next_id = db.next_id + 1;
              },
              rw row (rw (within, new_order) refl),
              refl,
            )
    ]

-- ===== src/Coupons/Claims.antt =====
-- A claim of a coupon keeps the use counts and the limits.
use fashion_ai_be.Prelude.{
  ℕ, ◌+◌, ◌==◌, ◌≡◌, refl, inl, inr, ◌&&◌, Bool, none, some, List, [], ◌∷◌, arith, All, find,
  find_by, find_by_fresh, count, update_many, Unique, Unique-update_many, Below-suc,
  All-update_many, if◌then◌else◌, Option-cases, Bool-cases,
}
use fashion_ai_be.Schema.Shop.{Db, Coupon, CouponRedemption}
use fashion_ai_be.Coupons.Redemptions.{
  Claim, claimed, refused, claim_coupon, is_claimable, ltb_opt, is_redeemed, redemption_of,
}
use fashion_ai_be.Coupons.Accounting.{Balanced, WithinLimit, IsAccounted}

-- The condition and the assignment of the UPDATE that claims.
abbrev test : CouponRedemption → ℕ → Coupon → Bool
test new at c = c.id == new.coupon_id && is_claimable at c

abbrev taken : Coupon → Coupon
taken c = record c { used_count = c.used_count + 1 }

module _ (new : CouponRedemption) (at : ℕ) (rs : List CouponRedemption) where
  -- Where the coupon is not, its claim changes nothing.
  claim_elsewhere :
      (cs : List Coupon)
      → find_by (λ (c : Coupon). c.id) new.coupon_id cs ≡ none
      → All (Balanced rs) cs
      → All (Balanced (new ∷ rs)) (update_many (test new at) taken cs)
  claim_elsewhere [] n b = tt
  claim_elsewhere (c ∷ cs) n b = ground (arith, claim_elsewhere cs)

  find-test_missing :
      (cs : List Coupon)
      → find_by (λ (c : Coupon). c.id) new.coupon_id cs ≡ none
      → find (test new at) cs ≡ none
  find-test_missing [] n = refl
  find-test_missing (c ∷ cs) n = ground (arith, find-test_missing cs)

  claim-Balanced :
      (cs : List Coupon) {c : Coupon}
      → Unique (λ (c : Coupon). c.id) cs
      → find (test new at) cs ≡ some c
      → All (Balanced rs) cs
      → All (Balanced (new ∷ rs)) (update_many (test new at) taken cs)
  claim-Balanced [] u f b = cc
  claim-Balanced (x ∷ cs) {c} u f b =
      ground (arith, claim-Balanced cs {c = c} u.1, claim_elsewhere cs, find-test_missing cs)

  claim-WithinLimit :
      (c : Coupon) → WithinLimit c → WithinLimit (if test new at c then taken c else c)
  unfolding is_claimable
  claim-WithinLimit c w l e = ground (arith, w l)

-- The database after a claim that found its coupon and recorded the redemption `new`.
claimed-IsAccounted :
    (new : CouponRedemption) (at : ℕ) (db : Db) {c : Coupon}
    → IsAccounted db
    → new.id ≡ db.next_id
    → find (test new at) db.coupons ≡ some c
    → IsAccounted (record db {
      coupons = update_many (test new at) taken db.coupons;
      redemptions = new ∷ db.redemptions;
      next_id = db.next_id + 1;
    })
claimed-IsAccounted new at db {c} h fresh f = record {
  fresh =
      (omega arith, Below-suc (λ (r : CouponRedemption). r.id) db.next_id db.redemptions h.fresh);
  unique = (
    rw fresh (find_by_fresh (λ (r : CouponRedemption). r.id) db.next_id db.redemptions h.fresh),
    h.unique,
  );
  coupon_unique = Unique-update_many _ (test new at) taken db.coupons (λ c. refl) h.coupon_unique;
  balanced = claim-Balanced new at db.redemptions db.coupons {c = c} h.coupon_unique f h.balanced;
  within =
      All-update_many WithinLimit WithinLimit (test new at) taken db.coupons
        (λ c w. claim-WithinLimit new at db.redemptions c w) h.within;
}

-- What a transaction leaves: its state, or by an exception the state before it.
abbrev pub after_claim : Claim → Db → Db
after_claim (claimed db') db = db'
after_claim (refused e) db = db

-- A claim keeps the books, whether it takes a use or is refused: each count is the number of the
-- redemptions of the coupon, and within its limit.
pub claim-IsAccounted :
    (coupon_id user_id order_id at : ℕ) (db : Db)
    → IsAccounted db
    → IsAccounted (after_claim (claim_coupon coupon_id user_id order_id at db) db)
unfolding claim_coupon
claim-IsAccounted coupon_id user_id order_id at db h =
    elim (Option-cases (find (λ (c : Coupon). c.id == coupon_id && is_claimable at c) db.coupons)) [
      | inl absent ↦ rw absent h
      | inr (c, e) ↦
          let used =
            count (λ (r : CouponRedemption). r.coupon_id == coupon_id && r.user_id == user_id)
              db.redemptions in
          elim (Bool-cases (ltb_opt used c.usage_limit_per_user)) [
            | inl room ↦ elim (Bool-cases (is_redeemed order_id db.redemptions)) [
              | inl taken_order ↦ rw (e, room, taken_order) h
              | inr free_order ↦
                  rw (e, room, free_order)
                    (claimed-IsAccounted (redemption_of coupon_id user_id order_id db) at db h refl
                      e)
            ]
            | inr full ↦ rw (e, full) h
          ]
    ]

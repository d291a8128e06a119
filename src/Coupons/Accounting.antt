-- ===== src/Coupons/Accounting.antt =====
-- The use count of every coupon against the redemptions that orders hold.
use fashion_ai_be.Prelude.{
  ℕ, ◌-◌, ◌≤◌, ◌==◌, ◌≡◌, refl, inl, inr, some, List, arith, All, find, find_by, find_by-find,
  count, count-delete_by, update_many, delete_many, Unique, Unique-delete_many, Unique-update_many,
  Below, Below-delete_many, All-update_many, if◌then◌else◌, Option-cases, Bool-cases,
}
use fashion_ai_be.Schema.Shop.{Db, Coupon, CouponRedemption}
use fashion_ai_be.Coupons.Redemptions.{release_order_coupon_redemption}

-- How many redemptions are of the coupon.
abbrev pub uses : ℕ → List CouponRedemption → ℕ
uses coupon_id = count (λ r. r.coupon_id == coupon_id)

-- The count of a coupon is the number of its redemptions.
abbrev pub Balanced : List CouponRedemption → Coupon → Type 0
Balanced redemptions c = c.used_count ≡ uses c.id redemptions

abbrev pub WithinLimit : Coupon → Type 0
WithinLimit c = (l : ℕ) → c.usage_limit ≡ some l → c.used_count ≤ l

pub record IsAccounted (db : Db) : Type 0 where
  pub fresh : Below (λ (r : CouponRedemption). r.id) db.next_id db.redemptions
  pub unique : Unique (λ (r : CouponRedemption). r.id) db.redemptions
  pub coupon_unique : Unique (λ (c : Coupon). c.id) db.coupons
  pub balanced : All (Balanced db.redemptions) db.coupons
  pub within : All WithinLimit db.coupons

module _ (r : CouponRedemption) (rs : List CouponRedemption) where
  abbrev less : Coupon → Coupon
  less c = if c.id == r.coupon_id then record c { used_count = c.used_count - 1 } else c

  less-Balanced :
      (c : Coupon)
      → Unique (λ (x : CouponRedemption). x.id) rs
      → find_by (λ (x : CouponRedemption). x.id) r.id rs ≡ some r
      → Balanced rs c
      → Balanced (delete_many (λ x. x.id == r.id) rs) (less c)
  less-Balanced c u f b = ground (
    arith,
    count-delete_by (λ (x : CouponRedemption). x.id) (λ x. x.coupon_id == c.id) r.id r rs u f,
  )

  less-WithinLimit : (c : Coupon) → WithinLimit c → WithinLimit (less c)
  less-WithinLimit c w l e = ground (arith, w l)

-- The database after the release of a redemption that was found.
released-IsAccounted :
    (r : CouponRedemption) (db : Db)
    → IsAccounted db
    → find_by (λ (x : CouponRedemption). x.id) r.id db.redemptions ≡ some r
    → IsAccounted (record db {
      redemptions = delete_many (λ x. x.id == r.id) db.redemptions;
      coupons =
          update_many
            (λ c. c.id == r.coupon_id)
            (λ c. record c { used_count = c.used_count - 1 })
            db.coupons;
    })
released-IsAccounted r db h f = record {
  fresh = Below-delete_many _ db.next_id (λ x. x.id == r.id) db.redemptions h.fresh;
  unique = Unique-delete_many _ (λ x. x.id == r.id) db.redemptions h.unique;
  coupon_unique =
      Unique-update_many _ (λ c. c.id == r.coupon_id)
        (λ c. record c { used_count = c.used_count - 1 }) db.coupons (λ c. refl) h.coupon_unique;
  balanced =
      All-update_many (Balanced db.redemptions) _ (λ c. c.id == r.coupon_id)
        (λ c. record c { used_count = c.used_count - 1 }) db.coupons
        (λ c b. less-Balanced r db.redemptions c h.unique f b) h.balanced;
  within =
      All-update_many WithinLimit WithinLimit (λ c. c.id == r.coupon_id)
        (λ c. record c { used_count = c.used_count - 1 }) db.coupons
        (λ c w. less-WithinLimit r db.redemptions c w) h.within;
}

-- Giving back the use that an order holds keeps the books, whatever order is named: each count is the
-- number of the redemptions of the coupon, and within its limit.
pub release-IsAccounted :
    (order_id : ℕ) (db : Db)
    → IsAccounted db
    → IsAccounted (release_order_coupon_redemption order_id db).0
unfolding release_order_coupon_redemption
release-IsAccounted order_id db h =
    elim (Option-cases (find (λ r. r.order_id == order_id) db.redemptions)) [
      | inl absent ↦ rw absent h
      | inr (r, e) ↦
          let f =
            find_by-find (λ (x : CouponRedemption). x.id) (λ r. r.order_id == order_id)
              db.redemptions h.unique e in
          elim (Bool-cases (count (λ (x : CouponRedemption). x.id == r.id) db.redemptions == 0)) [
            | inl gone ↦ rw (e, gone) h
            | inr there ↦ rw (e, there) (released-IsAccounted r db h f)
          ]
    ]

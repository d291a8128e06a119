-- ===== src/Coupons.antt =====
-- Coupons: src/modules/coupons, and the uses of a coupon that orders hold.
pub mod Redemptions
pub mod Accounting
pub mod Claims

-- ===== src/Cart.antt =====
-- The carts of the users: src/modules/cart/cart.service.ts.
pub mod Items
pub mod Limits
pub mod Merge
pub mod Accepted
pub mod Created
pub mod Raised
pub mod Merged
pub mod Resent
pub mod Changes
pub mod Purchased
pub mod Payment
pub mod Cleared

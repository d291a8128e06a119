-- ===== src/Orders.antt =====
-- Orders: src/modules/orders.
pub mod Flow
pub mod Tx
pub mod Cancel
pub mod Update
pub mod Invariant
pub mod Preservation
pub mod Winner
pub mod Effects
pub mod Expiry
pub mod Delivery
pub mod Disputes
pub mod DeliveryPreservation
pub mod Stage
pub mod Pricing
pub mod Totals
pub mod Redeemable
pub mod OrderCode

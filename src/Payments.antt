-- ===== src/Payments.antt =====
-- Payments of orders: src/modules/payments.
pub mod Claim
pub mod Void
pub mod Preservation
pub mod Race
pub mod LateVoid

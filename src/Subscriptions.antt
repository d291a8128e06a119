-- ===== src/Subscriptions.antt =====
-- Paid plans: src/modules/payments/subscription.service.ts and their prices.
pub mod Plans
pub mod Renew
pub mod Proration
pub mod Entitlement
pub mod Expire
pub mod Lapse
pub mod LastDay
pub mod AutoRenew
pub mod Toggle

-- ===== src/Sales.antt =====
-- Sale prices of products: src/modules/sale-campaigns/sale-pricing.service.ts.
pub mod Pricing
pub mod Ahead
pub mod Best

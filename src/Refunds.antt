-- ===== src/Refunds.antt =====
-- Refunds of an order by hand: src/modules/orders/orders.service.ts.
pub mod Desk
pub mod Update
pub mod Books
pub mod Cover
pub mod Records
pub mod Reopen
pub mod Reopened

-- ===== src/Lifecycle.antt =====
-- Orders from one operation to the next: every sequence of the calls of the orders service
-- (src/modules/orders/orders.service.ts) and of the payments service
-- (src/modules/payments/payments.service.ts) that change the status of an order.
pub mod OrderMoves
mod DeliveryMoves
mod PaymentMoves
pub mod History
pub mod Phases

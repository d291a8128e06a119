-- ===== src/Schema.antt =====
-- The tables of prisma/schema.prisma that several services read and write.
pub mod OrderStatus
pub mod PaymentStatus
pub mod RefundStatus
pub mod Members
pub mod Shop

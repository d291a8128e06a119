-- ===== src/Lib.antt =====
-- The backend of the FashionAI shop: what its services do to the database, and what holds of it.
--
-- The program is a NestJS server over PostgreSQL through Prisma. Its services read and write the
-- tables in transactions; between a read and the transaction that follows it, other requests may
-- write. The development models the services that carry orders, money, plans, live
-- sessions and accounts:
--
--   Prelude        tables as lists of rows with findFirst, findMany, updateMany, deleteMany and count
--                  under a Boolean condition, primary keys, and the decision lemmas
--   Schema         the columns and enums of prisma/schema.prisma that the services use
--   Coupons        src/common/utils/coupon-redemption.util.ts and the claim of a use in `create`
--   Orders         cancel, expireUnpaidOrders, updateStatus, confirmDelivery, confirmRefundReceived,
--                  createDeliveryDispute and resolveDeliveryDispute of
--                  src/modules/orders/orders.service.ts, and its table of status changes;
--                  Orders.Pricing is its buildOrderPricing and resolveDiscountAmount, and
--                  Orders.OrderCode is src/common/utils/order-code.util.ts
--   Payments       processOrderSuccess and markOrderCancelled of
--                  src/modules/payments/payments.service.ts
--   Subscriptions  createOrExtendSubscription, expireSubscriptions, the renewal flag and
--                  cancelScheduledSubscription of src/modules/payments/subscription.service.ts, and
--                  the prices of plans
--   Lifecycle      sequences of calls of nine handlers on the orders: cancel, expireUnpaidOrders,
--                  updateStatus, confirmDelivery, confirmRefundReceived, createDeliveryDispute,
--                  resolveDeliveryDispute, processOrderSuccess and markOrderCancelled
--   Refunds        updateRefund and reopenRefundNotReceived of
--                  src/modules/orders/orders.service.ts
--   Cart           src/modules/cart/cart.service.ts
--   Sales          src/modules/sale-campaigns/sale-pricing.service.ts
--   Quota          src/common/services/quota.service.ts
--   Live           the sessions of src/modules/try-on/live-try-on.service.ts: their reservation, pause,
--                  end and settlement against the budgets of a day
--   Redis          src/common/services/redis.service.ts: what its clients rely on (KeyStore) and the
--                  store in memory that serves while Redis is away (Memory), with what it means
--                  for a key to hold a text (Refinement)
--   Auth           refresh tokens: src/modules/auth/token.service.ts and refresh of
--                  src/modules/auth/auth.service.ts, over any KeyStore, and the one-time code of
--                  an address (Otp), over the store in memory
--   Tailoring      src/common/constants/measurement.constants.ts and the layers of clothes:
--                  src/modules/products/utils/layer-role.util.ts,
--                  src/modules/try-on/utils/garment-combo.util.ts and
--                  src/modules/try-on/utils/live-combo.util.ts
--   Tests          the theorems at concrete states
--
-- A handler is a function from a state to a state and an answer. An exception is a value of
-- `HttpError`, and it undoes the transaction it is thrown in. So does a unique violation, one that
-- the code catches included, since PostgreSQL aborts the transaction (`create_keyed_event`). What a
-- transaction does is a function of its own (`cancel_commit`, `expire_commit`, `claim_commit`,
-- `void_commit`, `status_commit`) on the state at its start, with the rows read before it as
-- arguments, so that theorems can put other transactions between the read and the transaction. In
-- Lifecycle a whole call is one step: other calls run before or after it, and not between its read
-- and its transaction. addItem of the cart has no transaction: its tests are one step
-- (`check_line`) and its writes another (`write_line`). The payments service calls the subscription
-- service inside its transaction, and the order and payment services release the coupon of an order
-- inside theirs.
--
-- The invariant of the orders, `IsShop`, says that order ids are unique, that an order that was
-- paid for and then cancelled or returned has a refund on record (`IsOwed`), and that the use count
-- of each coupon is the number of its redemptions and within its limit (`IsAccounted`). `phase`
-- groups the statuses of an order by how far it has come. updateRefund is not among the calls of
-- Lifecycle: its DTO admits NONE, which takes the refund of a cancelled order off record. The
-- invariant of the live sessions, `IsBooked`, says that each budget holds what the open sessions of
-- its scope and day reserved, that it charged no more than they used, and that both together stay
-- within the limit.
--
-- Ids, texts and order codes are numbers, since the code only compares them; dates are
-- milliseconds, a day has 24 hours; a `Decimal` with two places is the number of its hundredths,
-- and fractions are computed exactly where the source uses floating point. Numbers are unbounded. A
-- loop over rows is structural recursion on the rows that were read, so no fuel is needed.
--
-- What an outside service answers is an argument: the token of the provider of live sessions, the
-- choice of garments, the fee of the carrier, the check of a token's signature and its digest. The
-- loop that draws order codes is structural recursion on what its attempts draw, five at most.
--
-- Not modelled: messages, mail, realtime events, logs, the outbox and what a handler returns beyond
-- success or the kind of its error; the address, the quote token and the idempotency of a new
-- order; shipments with the carrier and measurement reviews beyond their status; signatures and
-- checkout links of the payment gateways; order issues; try-on of pictures, the stylist and chat;
-- passwords and access tokens; users and products. They are glue to outside services or lie outside
-- the state described above.
pub mod Prelude
pub mod Schema
pub mod Coupons
pub mod Subscriptions
pub mod Orders
pub mod Payments
pub mod Lifecycle
pub mod Cart
pub mod Refunds
pub mod Sales
pub mod Quota
pub mod Live
pub mod Redis
pub mod Auth
pub mod Tailoring
pub mod Tests

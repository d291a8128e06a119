-- ===== src/Schema/Shop.antt =====
-- The columns of the order tables that the order, payment and coupon code reads or writes
-- (prisma/schema.prisma). Ids and order codes are numbers, dates are milliseconds, and a
-- `Decimal(10, 2)` is the number of its hundredths.
use fashion_ai_be.Prelude.{ℕ, Bool, true, false, ◌&&◌, ◌==◌, Option, List}
use fashion_ai_be.Schema.OrderStatus.{OrderStatus}
use fashion_ai_be.Schema.PaymentStatus.{PaymentStatus}
use fashion_ai_be.Schema.RefundStatus.{RefundStatus}
use fashion_ai_be.Schema.Members.{UserTier, Members}

pub record Order : Type 0 where
  pub id : ℕ
  pub user_id : ℕ
  pub order_code : ℕ
  pub target_tier : Option UserTier
  pub amount : ℕ  -- hundredths of a VND
  pub amount_paid_vnd : ℕ
  pub amount_refunded_vnd : ℕ
  pub refund_confirmed_at : Option ℕ
  pub status : OrderStatus
  pub checkout_url : Option ℕ
  pub checkout_expires_at : Option ℕ
  pub fulfillment_flow_version : Option ℕ
  pub payment_status : Option PaymentStatus
  pub refund_status : RefundStatus
  pub created_at : ℕ

-- The `provider` strings that the payment code writes.
pub data Provider : Type 0 where
  sepay sepay_webhook manual_admin mock_sandbox momo zalopay : Provider

abbrev pub same_provider : Provider → Provider → Bool
same_provider Provider.sepay Provider.sepay = true
same_provider Provider.sepay_webhook Provider.sepay_webhook = true
same_provider Provider.manual_admin Provider.manual_admin = true
same_provider Provider.mock_sandbox Provider.mock_sandbox = true
same_provider Provider.momo Provider.momo = true
same_provider Provider.zalopay Provider.zalopay = true
same_provider _ _ = false

-- The text of `Payment.transactionId`: a reference, or `${orderCode}:${reference}`.
pub data TransactionId : Type 0 where
  reference : ℕ → TransactionId
  manual : ℕ → ℕ → TransactionId

abbrev pub same_transaction : TransactionId → TransactionId → Bool
same_transaction (TransactionId.reference a) (TransactionId.reference b) = a == b
same_transaction (TransactionId.manual a c) (TransactionId.manual b d) = a == b && c == d
same_transaction _ _ = false

pub record Payment : Type 0 where
  pub id : ℕ
  pub order_id : ℕ
  pub provider : Provider
  pub transaction_id : Option TransactionId
  pub provider_payment_id : Option ℕ
  pub status : PaymentStatus
  pub amount_vnd : Option ℕ
  pub paid_at : Option ℕ
  pub created_at : ℕ

-- The texts of `OrderEvent.deduplicationKey`, one constructor for each template.
pub data EventKey : Type 0 where
  created : ℕ → EventKey
  cancel_user : ℕ → EventKey
  payment_expired : ℕ → EventKey
  payment_manual : ℕ → EventKey
  payment : Provider → ℕ → EventKey
  payment_cancelled : Provider → ℕ → EventKey

abbrev pub same_event_key : EventKey → EventKey → Bool
same_event_key (EventKey.created a) (EventKey.created b) = a == b
same_event_key (EventKey.cancel_user a) (EventKey.cancel_user b) = a == b
same_event_key (EventKey.payment_expired a) (EventKey.payment_expired b) = a == b
same_event_key (EventKey.payment_manual a) (EventKey.payment_manual b) = a == b
same_event_key (EventKey.payment p a) (EventKey.payment q b) = same_provider p q && a == b
same_event_key (EventKey.payment_cancelled p a) (EventKey.payment_cancelled q b) =
    same_provider p q && a == b
same_event_key _ _ = false

pub data EventType : Type 0 where
  order_created order_cancelled order_payment_expired status_changed delivery_confirmed : EventType
  delivery_dispute_opened delivery_dispute_resolved refund_received_confirmed : EventType
  payment_succeeded payment_cancelled refund_updated refund_reopened : EventType

pub record OrderEvent : Type 0 where
  pub order_id : ℕ
  pub type : EventType
  pub from_status : Option OrderStatus
  pub to_status : Option OrderStatus
  pub deduplication_key : Option EventKey

pub data DiscountType : Type 0 where
  percentage fixed_amount : DiscountType

pub record Coupon : Type 0 where
  pub id : ℕ
  pub code : ℕ
  pub discount_type : DiscountType
  pub discount_value : ℕ  -- hundredths
  pub max_discount_vnd : Option ℕ
  pub min_order_vnd : Option ℕ
  pub usage_limit : Option ℕ
  pub usage_limit_per_user : Option ℕ
  pub used_count : ℕ
  pub is_active : Bool
  pub starts_at : Option ℕ
  pub expires_at : Option ℕ

pub record CouponRedemption : Type 0 where
  pub id : ℕ
  pub coupon_id : ℕ
  pub user_id : ℕ
  pub order_id : ℕ

-- `measurementReview.status` of an order item.
pub data ReviewStatus : Type 0 where
  open_review submitted resolved closed : ReviewStatus

pub record OrderItem : Type 0 where
  pub order_id : ℕ
  pub measurement_review : Option ReviewStatus

pub data DisputeResolution : Type 0 where
  customer_confirmed_received admin_confirmed_received refunded lost : DisputeResolution

pub record DeliveryDispute : Type 0 where
  pub id : ℕ
  pub order_id : ℕ
  pub is_open : Bool  -- `status` is OPEN, else RESOLVED
  pub resolution : Option DisputeResolution
  pub created_at : ℕ

-- A shipment, newest first by `created_at`. `raw_delivered` says that the trimmed lower-case
-- `rawStatus` is 'delivered'.
pub record Shipment : Type 0 where
  pub id : ℕ
  pub order_id : ℕ
  pub raw_delivered : Bool
  pub provider_event_at : Option ℕ
  pub last_synced_at : Option ℕ
  pub updated_at : ℕ
  pub created_at : ℕ

-- The database, as far as these services are concerned.
pub record Db : Type 0 where
  pub orders : List Order
  pub payments : List Payment
  pub items : List OrderItem
  pub disputes : List DeliveryDispute
  pub shipments : List Shipment
  pub events : List OrderEvent
  pub coupons : List Coupon
  pub redemptions : List CouponRedemption
  pub members : Members
  pub next_id : ℕ

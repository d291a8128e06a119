-- ===== src/Orders/Invariant.antt =====
-- What holds of the order tables between two operations.
use fashion_ai_be.Prelude.{
  ℕ, ◌≤◌, ◌==◌, ◌≡◌, refl, inl, inr, Bool, true, false, ◌&&◌, ◌||◌, some, arith, All,
  All-update_many, All-zip, find_by, All-same_key, ==_iff, sym, ◌∙◌, Unique, Unique-update_many,
  Below-mono, same, if◌then◌else◌, Bool-cases,
}
use mathlib.Core.Path.{subst}
use fashion_ai_be.Schema.OrderStatus.{OrderStatus, status_key_keyed}
use fashion_ai_be.Schema.RefundStatus.{RefundStatus, refund_key_keyed}
use fashion_ai_be.Schema.Shop.{Db, Order, OrderEvent}
use fashion_ai_be.Coupons.Redemptions.{release_order_coupon_redemption}
use fashion_ai_be.Coupons.Accounting.{IsAccounted, release-IsAccounted}
use fashion_ai_be.Orders.Tx.{always, update_order, expire_placeholders, create_order_event}
use fashion_ai_be.Orders.Update.{is_collected}

-- An order that was paid for and then cancelled or returned has a refund on record.
abbrev pub IsOwed : Order → Type 0
IsOwed o =
    (same o.status OrderStatus.cancelled || same o.status OrderStatus.returned) ≡ true
    → is_collected o.payment_status ≡ true
    → same o.refund_status RefundStatus.none ≡ false

abbrev pub order_id_of : Order → ℕ
order_id_of o = o.id

pub record IsShop (db : Db) : Type 0 where
  pub orders_unique : Unique order_id_of db.orders
  pub owed : All IsOwed db.orders
  pub accounted : IsAccounted db

-- The tables of the invariant are the same in the second database, or only hold newer ids.
pub record Frame (db db' : Db) : Type 0 where
  pub orders : db'.orders ≡ db.orders
  pub coupons : db'.coupons ≡ db.coupons
  pub redemptions : db'.redemptions ≡ db.redemptions
  pub next_id : db.next_id ≤ db'.next_id

pub Frame-trans : (a b c : Db) → Frame a b → Frame b c → Frame a c
Frame-trans a b c f g = record {
  orders = g.orders ∙ f.orders;
  coupons = g.coupons ∙ f.coupons;
  redemptions = g.redemptions ∙ f.redemptions;
  next_id = omega arith;
}

-- The books stand on the coupons and the redemptions alone.
IsAccounted-frame :
    (db db' : Db)
    → db'.coupons ≡ db.coupons
    → db'.redemptions ≡ db.redemptions
    → db.next_id ≤ db'.next_id
    → IsAccounted db
    → IsAccounted db'
IsAccounted-frame db db' c r n h = record {
  fresh = rw r (Below-mono _ db.next_id db'.next_id db.redemptions n h.fresh);
  unique = rw r h.unique;
  coupon_unique = rw c h.coupon_unique;
  balanced = rw (c, r) h.balanced;
  within = rw c h.within;
}

pub Frame-IsShop : (db db' : Db) → Frame db db' → IsShop db → IsShop db'
Frame-IsShop db db' f h = record {
  orders_unique = rw (f.orders) h.orders_unique;
  owed = rw (f.orders) h.owed;
  accounted = IsAccounted-frame db db' f.coupons f.redemptions f.next_id h.accounted;
}

pub update_order-IsShop :
    (k : ℕ) (p : Order → Bool) (f : Order → Order) (db : Db)
    → ((o : Order) → (f o).id ≡ o.id)
    → ((o : Order) → IsOwed o → IsOwed (if o.id == k && p o then f o else o))
    → IsShop db
    → IsShop (update_order k p f db)
update_order-IsShop k p f db keep owed h = record {
  orders_unique =
      Unique-update_many order_id_of (λ o. o.id == k && p o) f db.orders keep h.orders_unique;
  owed = All-update_many IsOwed IsOwed (λ o. o.id == k && p o) f db.orders owed h.owed;
  accounted = IsAccounted-frame db (update_order k p f db) refl refl (omega arith) h.accounted;
}

-- The same where the update is of an order that was just read.
read_row-IsOwed :
    (r : Order) (f : Order → Order)
    → (IsOwed r → IsOwed (f r))
    → (o : Order) → IsOwed o × (o.id ≡ r.id → o ≡ r)
    → IsOwed (if o.id == r.id && always o then f o else o)
read_row-IsOwed r f owed o h = elim (Bool-cases (o.id == r.id)) [
  | inl hit ↦
      let e : o ≡ r = h.1 ((==_iff o.id r.id).0 hit) in
      let mine : IsOwed r = subst IsOwed e h.0 in
      rw hit (subst (λ x. IsOwed (f x)) (sym e) (owed mine))
  | inr miss ↦ rw miss h.0
]

pub update_read-IsShop :
    (r : Order) (f : Order → Order) (db : Db)
    → find_by order_id_of r.id db.orders ≡ some r
    → ((o : Order) → (f o).id ≡ o.id)
    → (IsOwed r → IsOwed (f r))
    → IsShop db
    → IsShop (update_order r.id always f db)
update_read-IsShop r f db found keep owed h = record {
  orders_unique =
      Unique-update_many order_id_of (λ o. o.id == r.id && always o) f db.orders keep
        h.orders_unique;
  owed =
      All-update_many _ IsOwed (λ o. o.id == r.id && always o) f db.orders
        (read_row-IsOwed r f owed)
        (All-zip IsOwed _ db.orders h.owed
          (All-same_key order_id_of r.id r db.orders h.orders_unique found));
  accounted =
      IsAccounted-frame db (update_order r.id always f db) refl refl (omega arith) h.accounted;
}

pub release-orders : (k : ℕ) (db : Db) → (release_order_coupon_redemption k db).0.orders ≡ db.orders
unfolding release_order_coupon_redemption
release-orders k db = ground arith

pub release-IsShop : (k : ℕ) (db : Db) → IsShop db → IsShop (release_order_coupon_redemption k db).0
release-IsShop k db h = record {
  orders_unique = rw (release-orders k db) h.orders_unique;
  owed = rw (release-orders k db) h.owed;
  accounted = release-IsAccounted k db h.accounted;
}

pub expire_placeholders-Frame : (k : ℕ) (db : Db) → Frame db (expire_placeholders k db)
unfolding expire_placeholders
expire_placeholders-Frame k db = ground arith

pub create_order_event-Frame : (e : OrderEvent) (db : Db) → Frame db (create_order_event e db)
unfolding create_order_event
create_order_event-Frame e db = ground arith

pub expire_placeholders-IsShop : (k : ℕ) (db : Db) → IsShop db → IsShop (expire_placeholders k db)
expire_placeholders-IsShop k db = Frame-IsShop db _ (expire_placeholders-Frame k db)

pub create_order_event-IsShop :
    (e : OrderEvent) (db : Db) → IsShop db → IsShop (create_order_event e db)
create_order_event-IsShop e db = Frame-IsShop db _ (create_order_event-Frame e db)

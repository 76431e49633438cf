-- ===== src/Models.antt =====
-- internal/models: reservations, orders and sales, and the audit entries of internal/audit. Times are
-- seconds. An amount is in cents; the program only ever writes 0.
use flash_sale.Common.{ℕ, Option, Text, List}
use flash_sale.Common.Int.{ℤ}

pub data ReservationStatus : Type 0 where
  reserved confirmed released expired : ReservationStatus

pub record Reservation : Type 0 where
  pub id : ℕ
  pub user_id : ℕ
  pub sale_id : ℕ
  pub item_id : ℕ
  pub status : ReservationStatus
  pub reserved_at : ℕ
  pub confirmed_at : Option ℕ
  pub expires_at : ℕ

-- The enum order_status of the schema; the struct holds its name.
pub data OrderStatus : Type 0 where
  pending paid failed refunded : OrderStatus

pub record Order : Type 0 where
  pub id : ℕ
  pub reservation_id : ℕ
  pub user_id : ℕ
  pub sale_id : ℕ
  pub amount : ℕ
  pub status : OrderStatus
  pub idempotency_key : Text
  pub created_at : ℕ

-- A string type: a value outside of the four constants is possible.
pub data SaleStatus : Type 0 where
  pending active paused ended : SaleStatus
  other : Text → SaleStatus

pub record Sale : Type 0 where
  pub id : ℕ
  pub name : Text
  pub total_stock : ℤ
  pub start_time : ℕ
  pub end_time : ℕ
  pub status : SaleStatus
  pub created_at : ℕ

pub record SaleItem : Type 0 where
  pub id : ℕ
  pub sale_id : ℕ

pub data EntityType : Type 0 where
  reservation sale : EntityType

pub data EventType : Type 0 where
  reserved confirmed released expired promoted : EventType
  startup_reconciliation reconciliation_correction : EventType

pub record AuditEntry : Type 0 where
  pub entity_type : EntityType
  pub entity_id : ℕ
  pub event_type : EventType
  pub payload : List (Text × Text)

-- internal/events/publisher.go: the events that the services publish, with the data of each.
pub data Event : Type 0 where
  stock_update : ℤ → Event
  sale_ended : Text → Event
  waitlist_promoted : Text → Event
  reservation_expiring : ℕ → Event
  queue_position : ℤ → Event
  sale_started : Text → ℤ → Event

-- ===== src/Database.antt =====
-- The PostgreSQL tables of migrations/001_initial_schema.sql and 002_add_promoted_from_waitlist.sql,
-- and the SQL statements of the services as functions of the tables. A statement that violates a
-- constraint of the schema fails and writes nothing. The columns that no statement reads (a user's
-- email, an item's price) are left out.
pub mod Rows
use flash_sale.Common.{
  ℕ, ◌+◌, ◌≡◌, Bool, true, false, ◌&&◌, not, Option, none, some, List, [], ◌∷◌, map, Text, same,
  length, codes, count, leb, ltb, ◌==◌, if◌then◌else◌,
}
use flash_sale.Common.Int.{ℤ, pos, negsuc, leb_ℤ}
use flash_sale.Models.{
  ReservationStatus, Reservation, OrderStatus, Order, SaleStatus, Sale, SaleItem, AuditEntry,
}

-- A row of reservations: the struct and the column of migration 002.
pub record ReservationRow : Type 0 where
  pub reservation : Reservation
  pub open reservation use *
  pub promoted_from_waitlist : Bool

pub record Tables : Type 0 where
  pub users : List ℕ
  pub sales : List Sale
  pub sale_items : List SaleItem
  pub reservations : List ReservationRow
  pub orders : List Order
  pub audit_log : List AuditEntry

abbrev pub is_some {ℓ} : {A : Type ℓ} → Option A → Bool
is_some none = false
is_some (some a) = true

abbrev pub is_reserved : ReservationStatus → Bool
is_reserved ReservationStatus.reserved = true
is_reserved _ = false

abbrev pub is_confirmed : ReservationStatus → Bool
is_confirmed ReservationStatus.confirmed = true
is_confirmed _ = false

abbrev pub has_id : ℕ → List ℕ → Bool
has_id i [] = false
has_id i (j ∷ js) = if j == i then true else has_id i js

abbrev pub find_sale : ℕ → List Sale → Option Sale
find_sale i [] = none
find_sale i (s ∷ ss) = if s.id == i then some s else find_sale i ss

abbrev pub has_item : ℕ → List SaleItem → Bool
has_item i [] = false
has_item i (x ∷ xs) = if x.id == i then true else has_item i xs

-- SELECT … FROM reservations WHERE id = $1
abbrev pub find_reservation : ℕ → List ReservationRow → Option ReservationRow
find_reservation i [] = none
find_reservation i (r ∷ rs) = if r.id == i then some r else find_reservation i rs

-- SELECT … FROM orders WHERE idempotency_key = $1
abbrev pub find_order_by_key : Text → List Order → Option Order
find_order_by_key k [] = none
find_order_by_key k (o ∷ os) = if same o.idempotency_key k then some o else find_order_by_key k os

-- SELECT … FROM orders o WHERE o.id = $1
abbrev pub find_order : ℕ → List Order → Option Order
find_order i [] = none
find_order i (o ∷ os) = if o.id == i then some o else find_order i os

-- CONSTRAINT valid_confirmation
abbrev pub valid_confirmation : ReservationRow → Bool
valid_confirmation r =
    if is_confirmed r.status then is_some r.confirmed_at else not (is_some r.confirmed_at)

abbrev pub may_insert_reservation : ReservationRow → Tables → Bool
may_insert_reservation r t =
    not (is_some (find_reservation r.id t.reservations))
    && has_id r.user_id t.users
    && is_some (find_sale r.sale_id t.sales)
    && has_item r.item_id t.sale_items
    && valid_confirmation r

-- INSERT INTO reservations
unfoldable pub insert_reservation : ReservationRow → Tables → Option Tables
insert_reservation r t =
    if may_insert_reservation r t
    then some (record t { reservations = r ∷ t.reservations })
    else none

abbrev pub mark : ReservationStatus → Option ℕ → ReservationRow → ReservationRow
mark st at r = record r { reservation = record r.reservation { status = st; confirmed_at = at } }

abbrev pub checked : ReservationRow → List ReservationRow → Option (List ReservationRow)
checked r rs = if valid_confirmation r then some (r ∷ rs) else none

abbrev pub keep : ReservationRow → Option (List ReservationRow) → Option (List ReservationRow)
keep r none = none
keep r (some rs) = some (r ∷ rs)

-- The rows after an update at one primary key, `none` if the updated row violates its check.
abbrev pub update_row :
    (ReservationRow → ReservationRow) → ℕ → List ReservationRow → Option (List ReservationRow)
update_row f i [] = some []
update_row f i (r ∷ rs) = if r.id == i then checked (f r) rs else keep r (update_row f i rs)

abbrev pub with_reservations : Tables → Option (List ReservationRow) → Option Tables
with_reservations t none = none
with_reservations t (some rs) = some (record t { reservations = rs })

-- UPDATE reservations SET status = $1 WHERE id = $2
unfoldable pub set_status : ReservationStatus → ℕ → Tables → Option Tables
set_status st i t =
    with_reservations t (update_row (λ r. mark st r.confirmed_at r) i t.reservations)

-- UPDATE reservations SET status = $1, confirmed_at = $2 WHERE id = $3
unfoldable pub set_confirmed : ReservationStatus → ℕ → ℕ → Tables → Option Tables
set_confirmed st now i t = with_reservations t (update_row (mark st (some now)) i t.reservations)

abbrev pub may_insert_order : Order → Tables → Bool
may_insert_order o t =
    not (is_some (find_order o.id t.orders))
    && is_some (find_reservation o.reservation_id t.reservations)
    && has_id o.user_id t.users
    && is_some (find_sale o.sale_id t.sales)
    && not (is_some (find_order_by_key o.idempotency_key t.orders))
    && leb (length o.idempotency_key) 255

-- INSERT INTO orders; idempotency_key is VARCHAR(255) UNIQUE NOT NULL.
unfoldable pub insert_order : Order → Tables → Option Tables
insert_order o t = if may_insert_order o t then some (record t { orders = o ∷ t.orders }) else none

-- INSERT INTO sales; total_stock is a 32-bit INTEGER, name is VARCHAR(255).
unfoldable pub insert_sale : Sale → Tables → Option Tables
insert_sale x t =
    if not (is_some (find_sale x.id t.sales))
      && leb_ℤ x.total_stock (pos 2147483647)
      && leb_ℤ (negsuc 2147483647) x.total_stock
      && leb (length x.name) 255
    then some (record t { sales = x ∷ t.sales })
    else none

abbrev pub restatus : SaleStatus → ℕ → List Sale → List Sale
restatus st i [] = []
restatus st i (x ∷ xs) = (if x.id == i then record x { status = st } else x) ∷ restatus st i xs

abbrev pub status_name : SaleStatus → Text
status_name SaleStatus.pending = codes "pending"
status_name SaleStatus.active = codes "active"
status_name SaleStatus.paused = codes "paused"
status_name SaleStatus.ended = codes "ended"
status_name (SaleStatus.other t) = t

-- UPDATE sales SET status = $1 WHERE id = $2; status is VARCHAR(50).
unfoldable pub set_sale_status : SaleStatus → ℕ → Tables → Option Tables
set_sale_status st i t =
    if leb (length (status_name st)) 50
    then some (record t { sales = restatus st i t.sales })
    else none

-- INSERT INTO audit_log
unfoldable pub insert_audit : AuditEntry → Tables → Option Tables
insert_audit e t = some (record t { audit_log = e ∷ t.audit_log })

-- SELECT COUNT(*) FROM reservations WHERE sale_id = $1 AND status = 'reserved' AND expires_at > NOW()
abbrev pub count_reserved : ℕ → ℕ → Tables → ℕ
count_reserved sale now t =
    count (λ r. r.sale_id == sale && is_reserved r.status && ltb now r.expires_at) t.reservations

abbrev pub is_sold : OrderStatus → Bool
is_sold OrderStatus.pending = true
is_sold OrderStatus.paid = true
is_sold _ = false

-- SELECT COUNT(*) FROM orders WHERE sale_id = $1 AND status IN ('pending', 'paid')
abbrev pub count_orders : ℕ → Tables → ℕ
count_orders sale t = count (λ o. o.sale_id == sale && is_sold o.status) t.orders

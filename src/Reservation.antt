-- ===== src/Reservation.antt =====
-- internal/reservation/service.go: Reserve and Release. An identifier that the source draws with
-- uuid.New, and the time of a call, are arguments. Tracing and metrics are left out.
pub mod Confirmation
pub mod Quiet
pub mod Sync
pub mod Taken
pub mod Keepsake
pub mod Remembered
pub mod Idempotent
pub mod Reserve
pub mod Release
pub mod Returned
pub mod Race
pub mod Sold
pub mod Lifecycle
pub mod Confirm
pub mod ConfirmSync
pub mod Confirmed
use flash_sale.Common.{
  ℕ, ◌+◌, Bool, true, false, Option, none, some, List, [], ◌∷◌, Text, codes, if◌then◌else◌, not,
}
use flash_sale.Common.Int.{ℤ, pos, negsuc, eqb_ℤ}
use flash_sale.Platform.{Platform}
use flash_sale.Platform.Keyspace.{Scalar, num, text}
use flash_sale.Models.{
  ReservationStatus, Reservation, OrderStatus, Order, EntityType, EventType, AuditEntry, Event,
}
use flash_sale.Database.{
  ReservationRow, Tables, find_reservation, find_order_by_key, insert_reservation, set_status,
  set_confirmed, insert_order, insert_audit, is_reserved,
}
use flash_sale.Effects.{
  Action, Error, pure, fail, wrap, attempt, ◌>>=◌, ◌>>◌, redis_call, db_exec, db_query, begin,
  tx_exec, commit, publish,
}
use flash_sale.Redis.Script.{get}
use flash_sale.Redis.Keys.{available_key, idempotency_key, ttl_key, pubsub_channel}
use flash_sale.Redis.Client

pub record Service : Type 0 where
  pub reservation_ttl : ℕ
  pub has_publisher : Bool

abbrev pub is_empty : Text → Bool
is_empty [] = true
is_empty (c ∷ t) = false

-- `available, _ := rdb.Get(…).Int()`: 0 where the read fails or finds no integer.
abbrev pub int_or_zero : Option (Option Scalar) → ℤ
int_or_zero none = pos 0
int_or_zero (some none) = pos 0
int_or_zero (some (some (num n))) = n
int_or_zero (some (some (text t))) = pos 0

module _ (E : Platform) where
  unfoldable pub stock_count : ℕ → Action E ℤ
  stock_count sale = do
    value ← attempt (redis_call (get E (available_key E sale)))
    pure (int_or_zero value)

  unfoldable pub set_ttl : ℕ → ℕ → Action E (Unit {0})
  set_ttl seconds id = redis_call (λ s. (some tt, E.set (ttl_key E id) (num (pos 1)) seconds s))

  unfoldable pub set_idempotency : ℕ → Text → ℕ → Action E (Unit {0})
  set_idempotency sale key id =
      redis_call
        (λ s. (some tt, E.set (idempotency_key E sale key) (text (E.uuid_string id)) 86400 s))

  -- uuid.Parse of the reply of GET; the nil reply is an error.
  abbrev pub scalar_id : Option Scalar → Action E ℕ
  scalar_id none = fail Error.no_rows
  scalar_id (some (num n)) = fail Error.parse_failed
  scalar_id (some (text t)) = elim (E.parse_uuid t) [
    | none ↦ fail Error.parse_failed
    | some id ↦ pure id
  ]

  -- confirmed_at is not scanned.
  unfoldable pub check_idempotency : ℕ → Text → Action E Reservation
  check_idempotency sale key = do
    value ← redis_call (get E (idempotency_key E sale key))
    id ← scalar_id value
    row ← db_query (λ t. find_reservation id t.reservations)
    pure (record row.reservation { confirmed_at = none })

  unfoldable pub replay : ℕ → Text → Action E (Option Reservation)
  replay sale key = if is_empty key then pure none else attempt (check_idempotency sale key)

  abbrev pub audited : EventType → ℕ → List (Text × Text) → AuditEntry
  audited event id payload = record {
    entity_type = EntityType.reservation;
    entity_id = id;
    event_type = event;
    payload = payload;
  }

  unfoldable pub write_audit : EventType → ℕ → List (Text × Text) → Action E (Unit {0})
  write_audit event id payload = do
    attempt (db_exec (insert_audit (audited event id payload)))
    pure tt

  unfoldable pub publish_stock : Service → ℕ → ℤ → Action E (Unit {0})
  publish_stock svc sale available =
      if svc.has_publisher
      then (do attempt (publish (pubsub_channel E sale) (Event.stock_update available)); pure tt)
      else pure tt

  unfoldable pub publish_sold_out : Service → ℕ → ℤ → Action E (Unit {0})
  publish_sold_out svc sale available =
      if svc.has_publisher
      then (if eqb_ℤ available (pos 0)
          then (do
            attempt (publish (pubsub_channel E sale) (Event.sale_ended (codes "sold_out")))
            pure tt)
          else pure tt)
      else pure tt

  abbrev pub new_reservation : Service → ℕ → ℕ → ℕ → ℕ → ℕ → Reservation
  new_reservation svc user sale item id now = record {
    id = id;
    user_id = user;
    sale_id = sale;
    item_id = item;
    status = ReservationStatus.reserved;
    reserved_at = now;
    confirmed_at = none;
    expires_at = now + svc.reservation_ttl;
  }

  abbrev pub remember : Text → Reservation → Action E (Unit {0})
  remember key r =
      if is_empty key then pure tt else (do attempt (set_idempotency r.sale_id key r.id); pure tt)

  -- What follows the insertion of the row.
  unfoldable pub announce_reservation : Service → Text → Reservation → Action E Reservation
  announce_reservation svc key r = do
    wrap Error.set_ttl_failed (set_ttl svc.reservation_ttl r.id)
    remember key r
    available ← stock_count r.sale_id
    publish_stock svc r.sale_id available
    publish_sold_out svc r.sale_id available
    write_audit EventType.reserved r.id (
        (codes "user_id", E.uuid_string r.user_id)
        ∷ (codes "sale_id", E.uuid_string r.sale_id)
        ∷ (codes "item_id", E.uuid_string r.item_id)
        ∷ [])
    pure r

  abbrev pub give_back : {A : Type 0} → Error → ℕ → Action E A
  give_back error sale = do attempt (Client.release E sale); fail error

  abbrev pub settle_insert : Service → Text → Reservation → Option (Unit {0}) → Action E Reservation
  settle_insert svc key r none = give_back Error.create_reservation_failed r.sale_id
  settle_insert svc key r (some _) = announce_reservation svc key r

  abbrev pub unpromoted : Reservation → ReservationRow
  unpromoted r = record { reservation = r; promoted_from_waitlist = false }

  -- The unit of stock is taken: write the row, or give the unit back.
  unfoldable pub record_reservation : Service → Text → Reservation → Action E Reservation
  record_reservation svc key r = do
    inserted ← attempt (db_exec (insert_reservation (unpromoted r)))
    settle_insert svc key r inserted

  abbrev pub settle_reserve : Service → Text → Reservation → ℤ → Action E Reservation
  settle_reserve svc key r result =
      if eqb_ℤ result (negsuc 0) then fail Error.sold_out else record_reservation svc key r

  unfoldable pub reserve_new : Service → Text → Reservation → Action E Reservation
  reserve_new svc key r = do
    result ← wrap Error.redis_reserve_failed (Client.reserve E r.sale_id)
    settle_reserve svc key r result

  abbrev pub unless_replayed : {A : Type 0} → Action E A → Option A → Action E A
  unless_replayed m (some a) = pure a
  unless_replayed m none = m

  -- Service.Reserve
  unfoldable pub reserve : Service → ℕ → ℕ → ℕ → Text → ℕ → ℕ → Action E Reservation
  reserve svc user sale item key id now = do
    existing ← replay sale key
    unless_replayed (reserve_new svc key (new_reservation svc user sale item id now)) existing

  -- What follows the update of the row, for Release and for the expiry handler.
  unfoldable pub announce_return : Service → ℕ → ℕ → EventType → Action E (Unit {0})
  announce_return svc id sale event = do
    available ← stock_count sale
    publish_stock svc sale available
    write_audit event id ((codes "sale_id", E.uuid_string sale) ∷ [])

  unfoldable pub release_reserved : Service → Reservation → Action E (Unit {0})
  release_reserved svc r = do
    wrap Error.redis_release_failed (Client.release E r.sale_id)
    wrap Error.update_failed (db_exec (set_status ReservationStatus.released r.id))
    announce_return svc r.id r.sale_id EventType.released

  abbrev pub release_row : Service → ReservationRow → Action E (Unit {0})
  release_row svc row =
      if is_reserved row.status
      then release_reserved svc row.reservation
      else fail Error.not_reserved

  -- Service.Release
  unfoldable pub release : Service → ℕ → Action E (Unit {0})
  release svc id = do
    row ← wrap Error.reservation_not_found (db_query (λ t. find_reservation id t.reservations))
    release_row svc row

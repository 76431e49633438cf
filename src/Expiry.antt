-- ===== src/Expiry.antt =====
-- internal/queue/expiry_handler.go: what follows the expiry of a reservation's key. The handlers
-- return nothing: where the source logs and returns, the action fails, and its caller ignores that.
-- The identifiers that promoteNextUser draws with uuid.New, and the time of a call, are arguments.
pub mod Keys
pub mod Promotion
pub mod Lost
pub mod Warnings
pub mod Sync
use flash_sale.Common.{
  ℕ, ◌+◌, ◌-◌, Bool, true, false, ◌&&◌, Option, none, some, List, [], ◌∷◌, Text, codes, same, ◌==◌,
  leb, if◌then◌else◌,
}
use flash_sale.Platform.{Platform}
use flash_sale.Models.{Reservation, ReservationStatus, EventType, Event}
use flash_sale.Database.{
  Tables, ReservationRow, find_reservation, insert_reservation, set_status, is_reserved,
}
use flash_sale.Effects.{
  Action, Error, pure, fail, wrap, attempt, ◌>>=◌, ◌>>◌, db_exec, db_query, publish,
}
use flash_sale.Redis.Keys.{user_channel}
use flash_sale.Redis.Client
use flash_sale.Reservation.{
  Service, stock_count, set_ttl, publish_stock, write_audit, give_back, announce_return,
  new_reservation,
}

abbrev pub starts_with : Text → Text → Bool
starts_with [] t = true
starts_with (c ∷ p) [] = false
starts_with (c ∷ p) (x ∷ t) = if x == c then starts_with p t else false

abbrev pub ends_with : Text → Text → Bool
ends_with p [] = same [] p
ends_with p (x ∷ t) = if same (x ∷ t) p then true else ends_with p t

-- The filter of the listener in Start.
abbrev pub is_reservation_key : Text → Bool
is_reservation_key payload =
    starts_with (codes "reservation:") payload && ends_with (codes ":ttl") payload

abbrev pub extend : ℕ → List Text → List Text
extend x [] = (x ∷ []) ∷ []
extend x (p ∷ ps) = (x ∷ p) ∷ ps

-- strings.Split at a separator of one byte.
abbrev pub split : ℕ → Text → List Text
split c [] = [] ∷ []
split c (x ∷ t) = let rest = split c t in if x == c then [] ∷ rest else extend x rest

abbrev pub middle : List Text → Option Text
middle (a ∷ b ∷ c ∷ []) = some b
middle _ = none

-- The rows that notifyExpiringReservations selects.
abbrev pub is_due : ℕ → ReservationRow → Bool
is_due now r = is_reserved r.status && leb (now + 55) r.expires_at && leb r.expires_at (now + 90)

abbrev pub due_rows : ℕ → List ReservationRow → List ReservationRow
due_rows now [] = []
due_rows now (r ∷ rs) = let rest = due_rows now rs in if is_due now r then r ∷ rest else rest

module _ (E : Platform) where
  abbrev pub parsed : Option Text → Option ℕ
  parsed none = none
  parsed (some t) = E.parse_uuid t

  unfoldable pub expired_id : Text → Option ℕ
  expired_id key = parsed (middle (split 58 key))

  abbrev pub promoted : Reservation → ReservationRow
  promoted r = record { reservation = r; promoted_from_waitlist = true }

  unfoldable pub tell_promoted : Service → Reservation → Action E (Unit {0})
  tell_promoted h r =
      if h.has_publisher
      then (do
        attempt (publish (user_channel E r.user_id) (Event.waitlist_promoted (E.uuid_string r.id)))
        available ← stock_count E r.sale_id
        publish_stock E h r.sale_id available)
      else pure tt

  unfoldable pub announce_promotion : Service → Reservation → Action E (Unit {0})
  announce_promotion h r = do
    attempt (set_ttl E h.reservation_ttl r.id)
    tell_promoted h r
    write_audit E EventType.promoted r.id (
        (codes "user_id", E.uuid_string r.user_id)
        ∷ (codes "sale_id", E.uuid_string r.sale_id)
        ∷ [])

  abbrev pub settle_promotion : Service → Reservation → Option (Unit {0}) → Action E (Unit {0})
  settle_promotion h r none = give_back E Error.create_reservation_failed r.sale_id
  settle_promotion h r (some _) = announce_promotion h r

  unfoldable pub record_promotion : Service → Reservation → Action E (Unit {0})
  record_promotion h r = do
    inserted ← attempt (db_exec (insert_reservation (promoted r)))
    settle_promotion h r inserted

  abbrev pub promote_user : Service → ℕ → ℕ → ℕ → ℕ → Option ℕ → Action E (Unit {0})
  promote_user h sale id item now none = fail Error.invalid_user
  promote_user h sale id item now (some user) =
      record_promotion h (new_reservation E h user sale item id now)

  abbrev pub promote_member : Service → ℕ → ℕ → ℕ → ℕ → Text → Action E (Unit {0})
  promote_member h sale id item now member =
      if same member (codes "-1")
      then fail Error.nobody_waiting
      else promote_user h sale id item now (E.parse_uuid member)

  -- ExpiryHandler.promoteNextUser; `id` and `item` are the two identifiers that it draws.
  unfoldable pub promote_next_user : Service → ℕ → ℕ → ℕ → ℕ → Action E (Unit {0})
  promote_next_user h sale id item now = do
    member ← wrap Error.promote_failed (Client.waitlist_promote E sale)
    promote_member h sale id item now member

  unfoldable pub return_unit : Service → Reservation → Action E (Unit {0})
  return_unit h r = do
    wrap Error.redis_release_failed (Client.release E r.sale_id)
    wrap Error.update_failed (db_exec (set_status ReservationStatus.expired r.id))
    announce_return E h r.id r.sale_id EventType.expired

  abbrev pub expire_row : Service → ℕ → ℕ → ℕ → ReservationRow → Action E (Unit {0})
  expire_row h new_id item now row =
      if is_reserved row.status
      then (do return_unit h row.reservation; promote_next_user h row.sale_id new_id item now)
      else fail Error.not_reserved

  abbrev pub expire_reservation : Service → ℕ → ℕ → ℕ → Option ℕ → Action E (Unit {0})
  expire_reservation h new_id item now none = fail Error.invalid_key
  expire_reservation h new_id item now (some id) = do
    row ← wrap Error.reservation_not_found (db_query (λ t. find_reservation id t.reservations))
    expire_row h new_id item now row

  -- ExpiryHandler.handleExpiredReservation
  unfoldable pub handle_expired_reservation : Service → Text → ℕ → ℕ → ℕ → Action E (Unit {0})
  handle_expired_reservation h key new_id item now =
      expire_reservation h new_id item now (expired_id key)

  -- `clock` is the time that is left to compare with, at each reservation.
  unfoldable pub warn_each : (ℕ → ℕ) → List ReservationRow → Action E (Unit {0})
  warn_each clock [] = pure tt
  warn_each clock (r ∷ rs) = do
    attempt (
        publish (user_channel E r.user_id) (Event.reservation_expiring (r.expires_at - clock r.id)))
    warn_each clock rs

  -- ExpiryHandler.notifyExpiringReservations
  unfoldable pub notify_expiring_reservations : Service → ℕ → (ℕ → ℕ) → Action E (Unit {0})
  notify_expiring_reservations h now clock =
      if h.has_publisher
      then (do rows ← db_query (λ t. some (due_rows now t.reservations)); warn_each clock rows)
      else pure tt

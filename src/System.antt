-- ===== src/System.antt =====
-- The services together: any sequence of calls, one after another, from a state in step.
pub mod Stock
use flash_sale.Common.{ℕ, ◌≡◌, some, Text}
use flash_sale.Platform.{Platform}
use flash_sale.Database.{ReservationRow, find_reservation}
use flash_sale.Effects.{World}
use flash_sale.Reservation.{Service, reserve, release}
use flash_sale.Reservation.Confirmation.{confirm}
use flash_sale.Reservation.Confirmed.{Accepts}
use flash_sale.Waitlist.{join, get_position, leave}
use flash_sale.Expiry.{handle_expired_reservation, notify_expiring_reservations}
use flash_sale.Expiry.Promotion.{Waitlists}
use flash_sale.Reconcile.Worker.{reconcile_all_sales}

-- A call of a service, as the API handlers and the expiry listener make them. A confirmation is of a
-- reservation whose order the orders table takes; a reservation expires while the waitlists are sets
-- of printed identifiers.
pub data Step (E : Platform) (svc : Service) (w : World E) : World E → Type 0 where
  reserved :
      (user sale item : ℕ) (key : Text) (id now : ℕ)
      → Step E svc w (reserve E svc user sale item key id now w).1
  confirmed :
      (id : ℕ) (key : Text) (order_id now : ℕ)
      → ((row : ReservationRow)
          → find_reservation id w.db.reservations ≡ some row
          → Accepts E key order_id now w.db row)
      → Step E svc w (confirm E id key order_id now w).1
  released : (id : ℕ) → Step E svc w (release E svc id w).1
  expired :
      (key : Text) (new_id item now : ℕ)
      → Waitlists E w.redis
      → Step E svc w (handle_expired_reservation E svc key new_id item now w).1
  warned :
      (now : ℕ) (clock : ℕ → ℕ) → Step E svc w (notify_expiring_reservations E svc now clock w).1
  joined : (sale user timestamp : ℕ) → Step E svc w (join E sale user timestamp w).1
  looked : (sale user : ℕ) → Step E svc w (get_position E sale user w).1
  left : (sale user : ℕ) → Step E svc w (leave E sale user w).1

pub data Reach (E : Platform) (svc : Service) (w : World E) : World E → Type 0 where
  start : Reach E svc w w
  then : (v u : World E) → Reach E svc w v → Step E svc v u → Reach E svc w u

-- ===== src/System/Stock.antt =====
-- No sale is oversold, whatever calls are made.
use flash_sale.Common.{ℕ, ◌+◌, ◌-◌, ◌≤◌, ◌≡◌, some}
use flash_sale.Common.Int.{pos}
use flash_sale.Platform.{Platform}
use flash_sale.Effects.{World}
use flash_sale.Redis.Keys.{available_key, reserved_key}
use flash_sale.Redis.Counters.{counter}
use flash_sale.Reservation.{Service}
use flash_sale.Reservation.Sync.{InSync, reserved_in, sold_in}
use flash_sale.Reservation.Reserve.{reserve-InSync}
use flash_sale.Reservation.Release.{release-InSync}
use flash_sale.Reservation.Confirmed.{confirm-InSync}
use flash_sale.Waitlist.Sync.{join-sync, get_position-sync, leave-sync}
use flash_sale.Expiry.Warnings.{notify_expiring_reservations-sync}
use flash_sale.Expiry.Sync.{handle_expired_reservation-InSync}
use flash_sale.System.{
  Step, reserved, confirmed, released, expired, warned, joined, looked, left, Reach, start, then,
}

module _ (E : Platform) (svc : Service) (totals : ℕ → ℕ) where
  pub Step-InSync : {w u : World E} → Step E svc w u → InSync E totals w → InSync E totals u
  Step-InSync {w} (reserved user sale item key id now) h =
      reserve-InSync E totals svc user sale item key id now w h
  Step-InSync {w} (confirmed id key order_id now accepts) h =
      confirm-InSync E totals id key order_id now w h accepts
  Step-InSync {w} (released id) h = release-InSync E totals svc id w h
  Step-InSync {w} (expired key new_id item now lists) h =
      handle_expired_reservation-InSync E totals svc new_id item now key w h lists
  Step-InSync {w} (warned now clock) h =
      (notify_expiring_reservations-sync E totals svc now clock).holds w h
  Step-InSync {w} (joined sale user timestamp) h =
      (join-sync E totals sale user timestamp).holds w h
  Step-InSync {w} (looked sale user) h = (get_position-sync E totals sale user).holds w h
  Step-InSync {w} (left sale user) h = (leave-sync E totals sale user).holds w h

  Reach-InSync : {w u : World E} → InSync E totals w → Reach E svc w u → InSync E totals u
  Reach-InSync h start = h
  Reach-InSync h (then v u path last) = Step-InSync last (Reach-InSync h path)

  -- From a state in step, after any calls of the services one after another (reservations,
  -- confirmations whose order the table takes, releases, expiries with their promotions while the
  -- waitlists are sets of printed identifiers, expiry warnings, and waitlist calls), of every sale
  -- the reserved rows and the pending or paid orders are at most its total, the available counter
  -- is what they leave of it and the reserved counter is the number of reserved rows.
  pub never_oversold :
      (w u : World E)
      → InSync E totals w
      → Reach E svc w u
      → (sale : ℕ)
      → let q = reserved_in u.db sale in
        let o = sold_in u.db sale in
        (q + o ≤ totals sale)
        × (counter E u.redis (available_key E sale) ≡ some (pos (totals sale - (q + o))))
        × (counter E u.redis (reserved_key E sale) ≡ some (pos q))
  never_oversold w u h path sale =
      let c = (Reach-InSync h path).counts sale in (c.within, c.available_held, c.reserved_held)

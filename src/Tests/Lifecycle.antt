-- ===== src/Tests/Lifecycle.antt =====
-- The theorems on what becomes of a unit, each at a run.
use flash_sale.Common.{ℕ, ◌+◌, ◌≡◌, refl, some, ◌∷◌, codes, arith}
use flash_sale.Reference.{memory}
use flash_sale.Redis.Keys.{available_key, reserved_key, sale_key, idempotency_key}
use flash_sale.Redis.Counters.{counter}
use flash_sale.Redis.Counts.{at_sale}
use flash_sale.Models.{ReservationStatus}
use flash_sale.Database.{find_reservation, insert_reservation}
use flash_sale.Effects.{ok, db_query}
use flash_sale.Reservation.{reserve, release, new_reservation, unpromoted}
use flash_sale.Reservation.Confirmation.{confirm, new_order, replay_order, order_by_key}
use flash_sale.Reservation.Confirm.{confirmed_row}
use flash_sale.Reservation.Sync.{reserved_in, sold_in}
use flash_sale.Reservation.Release.{restate}
use flash_sale.Reservation.Sold.{confirm_sells}
use flash_sale.Reservation.Lifecycle.{release-reserve}
use flash_sale.Tests.Scene.{service, totals, first_row}
use flash_sale.Tests.Drift.{right, right-InSync}
use flash_sale.Tests.Requests.{second}

confirm_sells_example :
    let order = new_order memory first_row.reservation (codes "c1") 30 40 in
    let (r, w') = confirm memory 20 (codes "c1") 30 40 right in
    (r ≡ ok order)
    × (w'.db.orders ≡ order ∷ right.db.orders)
    × (find_reservation 20 w'.db.reservations ≡ some (confirmed_row 40 first_row))
    × ((b : ℕ) → reserved_in w'.db b + at_sale first_row.sale_id b ≡ reserved_in right.db b)
    × ((b : ℕ) → sold_in w'.db b ≡ sold_in right.db b + at_sale first_row.sale_id b)
unfolding replay_order order_by_key db_query
confirm_sells_example =
    confirm_sells memory totals 20 (codes "c1") 30 40 right first_row right-InSync refl refl refl
      refl

release-reserve_example :
    let r = new_reservation memory service 2 7 4 21 40 in
    let (made, w1) = reserve memory service 2 7 4 (codes "k2") 21 40 right in
    let (gone, w2) = release memory service 21 w1 in
    (made ≡ ok r)
    × (gone ≡ ok tt)
    × (find_reservation 21 w2.db.reservations
        ≡ some (restate ReservationStatus.released (unpromoted memory r)))
    × ((b : ℕ)
        → (reserved_in w2.db b ≡ reserved_in right.db b)
          × (sold_in w2.db b ≡ sold_in right.db b)
          × (counter memory w2.redis (available_key memory b)
              ≡ counter memory right.redis (available_key memory b))
          × (counter memory w2.redis (reserved_key memory b)
              ≡ counter memory right.redis (reserved_key memory b)))
unfolding insert_reservation idempotency_key available_key reserved_key sale_key
release-reserve_example =
    release-reserve memory totals service 2 7 4 (codes "k2") 21 40 right refl second right-InSync
      (omega arith) refl refl

-- ===== src/Tests/Requests.antt =====
-- The theorems on requests with a key and on promotions, each at a run.
use flash_sale.Common.{◌≡◌, refl, some, [], ◌∷◌, codes, arith}
use flash_sale.Platform.Keyspace.{entries_at}
use flash_sale.Database.{Tables, find_reservation, insert_reservation}
use flash_sale.Effects.{ok, err, Error}
use flash_sale.Reference.{memory}
use flash_sale.Redis.Keys.{available_key, reserved_key, waitlist_key, idempotency_key, sale_key}
use flash_sale.Reservation.{reserve, unpromoted, new_reservation}
use flash_sale.Reservation.Idempotent.{reserve-reserve, reserve_sold_out_calm}
use flash_sale.Expiry.{promote_next_user}
use flash_sale.Expiry.Lost.{promotion_loses_user}
use flash_sale.Tests.Scene.{service, totals, no_totals, start, start-InSync}
use flash_sale.Tests.Drift.{
  right, right-InSync, rows, queued, queued-InSync, queued-held, waiting_user,
}

abbrev pub second : Tables
second = record rows {
  reservations = unpromoted memory (new_reservation memory service 2 7 4 21 40) ∷ rows.reservations;
}

reserve-reserve_example :
    let r = new_reservation memory service 2 7 4 21 40 in
    let (res, w1) = reserve memory service 2 7 4 (codes "k2") 21 40 right in
    (res ≡ ok r)
    × (find_reservation 21 w1.db.reservations ≡ some (unpromoted memory r))
    × (reserve memory service 1 7 4 (codes "k2") 22 50 w1 ≡ (ok r, w1))
unfolding insert_reservation idempotency_key available_key reserved_key sale_key
reserve-reserve_example =
    reserve-reserve memory 7 (codes "k2") refl totals service 2 4 21 40 right second 1 4 22 50
      right-InSync (omega arith) refl refl

reserve_sold_out_calm_example :
    reserve memory service 2 7 4 (codes "k2") 21 40 start ≡ (err Error.sold_out, start)
reserve_sold_out_calm_example =
    reserve_sold_out_calm memory 7 (codes "k2") refl no_totals service 2 4 21 40 start start-InSync
      refl refl

promotion_loses_user_example :
    let (res, w') = promote_next_user memory service 7 22 99 340 queued in
    (res ≡ err Error.create_reservation_failed)
    × (w'.db ≡ queued.db)
    × (entries_at (memory.lookup w'.redis (waitlist_key memory 7)) ≡ some [])
promotion_loses_user_example =
    promotion_loses_user memory totals service 7 22 99 340 queued waiting_user [] 2 queued-InSync
      (omega arith) queued-held refl refl

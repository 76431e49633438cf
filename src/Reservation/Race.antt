-- ===== src/Reservation/Race.antt =====
-- Two calls that give back the unit of one reservation. Release and the expiry handler read the row, run
-- release.lua and then update the row whatever its state is by then.
use flash_sale.Common.{
  ℕ, ◌+◌, ◌-◌, ◌≡◌, refl, sym, ap, ◌∙◌, some, none, [], arith, true, false, if◌then◌else◌,
}
use flash_sale.Common.Int.{pos, ◌+ℤ◌, ◌-ℤ◌, int_laws}
use flash_sale.Platform.{Platform}
use flash_sale.Platform.Keyspace.{integer_at}
use flash_sale.Models.{ReservationStatus, EventType}
use flash_sale.Database.{
  Tables, ReservationRow, find_reservation, is_reserved, set_status, count_orders,
}
use flash_sale.Database.Rows.{
  update-SameCounts, find-valid, find-id, reserved_rows, reserved_unconfirmed,
}
use flash_sale.Effects.{World, ok, Error, ◌>>◌, wrap, fail, db_exec, pure, redis_call}
use flash_sale.Effects.Steps.{then-ok, wrap-ok}
use flash_sale.Effects.Calm.{db_exec_done, redis_call_calm}
use flash_sale.Redis.Keys.{available_key, reserved_key}
use flash_sale.Redis.Apart.{reserved_key-ne-available_key}
use flash_sale.Redis.Counters.{counter}
use flash_sale.Redis.Stock.{release_returns}
use flash_sale.Redis.Counts.{available_at, reserved_at, at_self}
use flash_sale.Redis.Client
use flash_sale.Redis.ClientCalm.{after_release, release_script}
use flash_sale.Reservation.{Service, announce_return, release_reserved, release_row, release}
use flash_sale.Reservation.Quiet.{announce_return-Quiet}
use flash_sale.Reservation.Sync.{InSync, reserved_in, sold_in}
use flash_sale.Reservation.Returned.{first_release}
use flash_sale.Reservation.Release.{
  restate, restate_left, release-InSync, restate_valid, unconfirmed,
}

module _ (E : Platform) (totals : ℕ → ℕ) (svc : Service) where
  -- release.lua on counters that are in step, whether or not a unit is reserved.
  over_released :
      (w : World E) (sale : ℕ)
      → InSync E totals w
      → let q = reserved_in w.db sale in
        let o = sold_in w.db sale in
        let w1 = after_release E w sale in
        (Client.release E sale w ≡ (ok tt, w1))
        × (counter E w1.redis (available_key E sale) ≡ some (pos (totals sale - (q + o) + 1)))
        × (counter E w1.redis (reserved_key E sale) ≡ some (pos q -ℤ pos 1))
  unfolding Client.release
  over_released w sale h =
      let c = h.counts sale in
      let a = pos (totals sale - (reserved_in w.db sale + sold_in w.db sale)) in
      let r = pos (reserved_in w.db sale) in
      let (v, e) =
        release_returns E (available_key E sale) (reserved_key E sale) w.redis a r
          (reserved_key-ne-available_key E sale sale) c.available_held c.reserved_held
          (omega (int_laws, c.small)) (omega (int_laws, c.small)) in
      let s' = (release_script E sale w.redis).1 in
      (
        then-ok (redis_call (release_script E sale)) (pure tt)
            (redis_call_calm w h.calm (release_script E sale) v),
        available_at E w.redis s' sale (a +ℤ pos 1) (r -ℤ pos 1) e ∙ ap some (omega int_laws),
        reserved_at E w.redis s' sale (a +ℤ pos 1) (r -ℤ pos 1) e,
      )

  -- The statement of Release on a row that somebody has released already.
  updated_again :
      (w : World E) (id : ℕ) (now : ReservationRow)
      → InSync E totals w
      → find_reservation id w.db.reservations ≡ some now
      → is_reserved now.status ≡ false
      → now.confirmed_at ≡ none
      → (t : Tables) × (set_status ReservationStatus.released id w.db ≡ some t)
        × ((sale : ℕ) → reserved_in t sale ≡ reserved_in w.db sale)
        × ((sale : ℕ) → sold_in t sale ≡ sold_in w.db sale)
  unfolding set_status
  updated_again w id now h found not_res unconfirmed =
      let st = ReservationStatus.released in
      let (rs, u, same) =
        update-SameCounts (restate st) now not_res (restate_left st now refl)
          (restate_valid st now refl unconfirmed) id w.db.reservations h.rows_valid found in
      (record w.db { reservations = rs }, rw u, same.same_count, λ sale. refl)

  -- Release, from where it has read the row as reserved, once somebody has released the row.
  late_release :
      (w : World E) (id : ℕ) (seen now : ReservationRow)
      → InSync E totals w
      → seen.id ≡ id
      → is_reserved seen.status ≡ true
      → find_reservation id w.db.reservations ≡ some now
      → is_reserved now.status ≡ false
      → now.confirmed_at ≡ none
      → let w' = (release_row E svc seen w).1 in
        let sale = seen.sale_id in
        let q = reserved_in w.db sale in
        let o = sold_in w.db sale in
        (reserved_in w'.db sale ≡ q)
        × (sold_in w'.db sale ≡ o)
        × (counter E w'.redis (available_key E sale) ≡ some (pos (totals sale - (q + o) + 1)))
        × (counter E w'.redis (reserved_key E sale) ≡ some (pos q -ℤ pos 1))
  unfolding release_reserved
  late_release w id seen now h same_id is_res found not_res unconfirmed =
      let sale = seen.sale_id in
      let (t, written, same_q, same_o) = updated_again w id now h found not_res unconfirmed in
      let (released, available, reserved) = over_released w sale h in
      let w1 = after_release E w sale in
      let w2 : World E = record w1 { db = t; faults = [] } in
      let update = db_exec (set_status ReservationStatus.released seen.id) in
      let told = announce_return E svc seen.id sale EventType.released in
      let done =
        db_exec_done w1 refl (set_status ReservationStatus.released seen.id)
          (ap (λ i. set_status ReservationStatus.released i w.db) same_id ∙ written) in
      let e =
        ap (λ b. (if b then release_reserved E svc seen.reservation else fail Error.not_reserved) w)
          is_res
        ∙ then-ok (wrap Error.redis_release_failed (Client.release E sale))
            (wrap Error.update_failed update >> told)
            (wrap-ok (Client.release E sale) Error.redis_release_failed released)
        ∙ then-ok (wrap Error.update_failed update) told
            (wrap-ok update Error.update_failed done) in
      let quiet = (announce_return-Quiet E svc seen.id sale EventType.released).holds w2 in
      rw e (
        ap (λ u. reserved_rows sale u.reservations) quiet.tables ∙ same_q sale,
        ap (λ u. count_orders sale u) quiet.tables ∙ same_o sale,
        ap integer_at (quiet.stock.same_available sale) ∙ available,
        ap integer_at (quiet.stock.same_reserved sale) ∙ reserved,
      )

  -- From a state in step and without network faults, if a second Release of a reserved reservation
  -- has read the row before the first one writes it, and goes on after the first is through: one
  -- row less is reserved, and the sale has one unit more available than its rows leave of the
  -- total, and one less counted as reserved than there are rows.
  pub release_twice_drifts :
      (w : World E) (id : ℕ) (row : ReservationRow)
      → InSync E totals w
      → find_reservation id w.db.reservations ≡ some row
      → is_reserved row.status ≡ true
      → let w1 = (release E svc id w).1 in
        let w2 = (release_row E svc row w1).1 in
        let sale = row.sale_id in
        let q = reserved_in w2.db sale in
        let o = sold_in w2.db sale in
        (q + 1 ≡ reserved_in w.db sale)
        × (o ≡ sold_in w.db sale)
        × (counter E w2.redis (available_key E sale) ≡ some (pos (totals sale - (q + o) + 1)))
        × (counter E w2.redis (reserved_key E sale) ≡ some (pos q -ℤ pos 1))
  release_twice_drifts w id row h found is_res =
      let w1 = (release E svc id w).1 in
      let sale = row.sale_id in
      let (answer, first) = first_release E totals svc w id row h found is_res in
      let less : reserved_in w1.db sale + 1 ≡ reserved_in w.db sale =
        omega (arith, first.one_less sale, at_self sale) in
      let unset =
        reserved_unconfirmed row (find-valid id w.db.reservations row h.rows_valid found) is_res in
      let (same_q, same_o, available, reserved) =
        late_release w1 id row (restate ReservationStatus.released row)
          (release-InSync E totals svc id w h) (find-id id w.db.reservations row found) is_res
          first.found_now refl unset in
      (
        ap (λ n. n + 1) same_q ∙ less,
        same_o ∙ first.same_sold sale,
        available ∙ ap some (ap pos (omega (arith, same_q, same_o))),
        reserved ∙ ap (λ n. some (pos n -ℤ pos 1)) (sym same_q),
      )

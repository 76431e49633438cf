-- ===== src/Expiry/Sync.antt =====
-- handleExpiredReservation keeps the counters in step with the rows.
use flash_sale.Common.{
  ℕ, ◌≡◌, refl, sym, ap, subst, ◌∙◌, Option, some, none, [], Text, true, Option-cases, Bool-cases,
  inl, inr,
}
use flash_sale.Platform.{Platform}
use flash_sale.Platform.Keyspace.{entries_at}
use flash_sale.Models.{ReservationStatus, EventType}
use flash_sale.Database.{Tables, ReservationRow, find_reservation, set_status, is_reserved}
use flash_sale.Database.Rows.{find-id}
use flash_sale.Effects.{World, Result, ok, err, Error, ◌>>◌, wrap, db_exec, db_query}
use flash_sale.Effects.Steps.{bind-ok, bind-err, then-ok, wrap-ok, wrap-err}
use flash_sale.Effects.Calm.{db_exec_done, db_query_found, db_query_missing}
use flash_sale.Redis.Client
use flash_sale.Redis.Keys.{waitlist_key}
use flash_sale.Redis.Moves.{release_keeps_waitlist}
use flash_sale.Redis.ClientCalm.{release_calm, after_release}
use flash_sale.Reservation.{Service, announce_return}
use flash_sale.Reservation.Quiet.{announce_return-Quiet}
use flash_sale.Reservation.Sync.{InSync, Quiet-InSync, reserved_in, sold_in}
use flash_sale.Reservation.Release.{returned-InSync, counted}
use flash_sale.Expiry.{
  return_unit, promote_next_user, expire_row, expire_reservation, expired_id,
  handle_expired_reservation,
}
use flash_sale.Expiry.Promotion.{Waitlists, promote_next_user-InSync}

module _ (E : Platform) (totals : ℕ → ℕ) (h : Service) (new_id item now : ℕ) where
  same_Waitlists :
      (s s' : E.Store)
      → ((b : ℕ) → E.lookup s' (waitlist_key E b) ≡ E.lookup s (waitlist_key E b))
      → Waitlists E s
      → Waitlists E s'
  same_Waitlists s s' same_list lists b =
      let (es, held, printed) = lists b in (es, ap entries_at (same_list b) ∙ held, printed)

  abbrev Both : World E → Type 0
  Both w = InSync E totals w × Waitlists E w.redis

  -- The unit of the expired row is back, and the world is told.
  return_unit-Both :
      (w : World E) (id : ℕ) (row : ReservationRow)
      → Both w
      → find_reservation id w.db.reservations ≡ some row
      → is_reserved row.status ≡ true
      → Both (return_unit E h row.reservation w).1
  unfolding return_unit
  return_unit-Both w id row (sync, lists) found is_res =
      let (t, written, synced) =
        returned-InSync E totals w id row sync found is_res ReservationStatus.expired refl in
      let w1 = after_release E w row.sale_id in
      let w2 : World E = record w1 { db = t; faults = [] } in
      let one = counted E totals w id row sync found is_res in
      let released =
        release_calm E totals (reserved_in w.db) (sold_in w.db) w row.sale_id sync.calm sync.counts
          one in
      let update = db_exec (set_status ReservationStatus.expired row.id) in
      let told = announce_return E h row.id row.sale_id EventType.expired in
      let done = db_exec_done w1 refl (set_status ReservationStatus.expired row.id) (
        ap (λ i. set_status ReservationStatus.expired i w.db)
          (find-id id w.db.reservations row found)
        ∙ written) in
      let quiet_after = (announce_return-Quiet E h row.id row.sale_id EventType.expired).holds w2 in
      subst (λ p. Both p.1)
        (sym (
          then-ok (wrap Error.redis_release_failed (Client.release E row.sale_id))
            (wrap Error.update_failed update >> told)
            (wrap-ok (Client.release E row.sale_id) Error.redis_release_failed released)
          ∙ then-ok (wrap Error.update_failed update) told
              (wrap-ok update Error.update_failed done)))
        (
          Quiet-InSync E totals w2 (told w2).1 quiet_after synced,
          same_Waitlists w.redis (told w2).1.redis
              (λ b.
                quiet_after.stock.same_waitlist b
                ∙ release_keeps_waitlist E totals (reserved_in w.db) (sold_in w.db) w.redis
                    row.sale_id sync.counts one b)
              lists,
        )

  after_return :
      (r : Result (Unit {0})) (w : World E)
      → Both w
      → (sale : ℕ)
      → InSync E totals
          (elim r as (λ _. Result (Unit {0}) × World E) [
            | ok a ↦ promote_next_user E h sale new_id item now w
            | err e ↦ (err e, w)
          ]).1
  after_return (ok a) w (sync, lists) sale =
      promote_next_user-InSync E h totals sale new_id item now w sync lists
  after_return (err e) w (sync, lists) sale = sync

  expire_row-InSync :
      (w : World E) (id : ℕ) (row : ReservationRow)
      → Both w
      → find_reservation id w.db.reservations ≡ some row
      → InSync E totals (expire_row E h new_id item now row w).1
  expire_row-InSync w id row both found = elim (Bool-cases (is_reserved row.status)) [
    | inl is_res ↦
        let returned = return_unit E h row.reservation w in
        rw is_res (
          after_return returned.0 returned.1 (return_unit-Both w id row both found is_res)
            row.sale_id)
    | inr not_res ↦ rw not_res both.0
  ]

  expire_reservation-InSync :
      (w : World E) (o : Option ℕ)
      → Both w
      → InSync E totals (expire_reservation E h new_id item now o w).1
  expire_reservation-InSync w none both = both.0
  expire_reservation-InSync w (some id) (sync, lists) =
      let query = λ (t : Tables). find_reservation id t.reservations in
      let w0 : World E = record w { faults = [] } in
      let sync0 : InSync E totals w0 = record {
        calm = refl;
        rows_valid = sync.rows_valid;
        counts = sync.counts;
      } in
      let found_row = wrap Error.reservation_not_found (db_query query) in
      elim (Option-cases (query w.db)) [
        | inl missing ↦
            subst (λ p. InSync E totals p.1)
              (sym (
                bind-err found_row (expire_row E h new_id item now) (
                  wrap-err (db_query query) Error.reservation_not_found
                    (db_query_missing w sync.calm query missing))))
              sync0
        | inr (row, found) ↦
            subst (λ p. InSync E totals p.1)
              (sym (
                bind-ok found_row (expire_row E h new_id item now) (
                  wrap-ok (db_query query) Error.reservation_not_found
                    (db_query_found w sync.calm query found))))
              (expire_row-InSync w0 id row (sync0, lists) found)
      ]

  -- The handler of an expired reservation, the promotion from the waitlist included, keeps the
  -- counters of every sale in step with the rows, on every branch of a run without network faults,
  -- if the waitlists are sets of printed identifiers.
  pub handle_expired_reservation-InSync :
      (key : Text) (w : World E)
      → InSync E totals w
      → Waitlists E w.redis
      → InSync E totals (handle_expired_reservation E h key new_id item now w).1
  unfolding handle_expired_reservation
  handle_expired_reservation-InSync key w sync lists =
      expire_reservation-InSync w (expired_id E key) (sync, lists)

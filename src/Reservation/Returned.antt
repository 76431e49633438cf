-- ===== src/Reservation/Returned.antt =====
-- What a Release of a reserved row does.
use flash_sale.Common.{ℕ, ◌+◌, ◌≡◌, refl, sym, ap, ◌∙◌, some, [], arith, true, if◌then◌else◌}
use flash_sale.Platform.{Platform}
use flash_sale.Models.{ReservationStatus, EventType}
use flash_sale.Database.{
  ReservationRow, find_reservation, is_reserved, set_status, count_orders, with_reservations,
}
use flash_sale.Database.Rows.{find-id, reserved_rows, find-update}
use flash_sale.Effects.{World, ok, Error, fail}
use flash_sale.Redis.ClientCalm.{after_release}
use flash_sale.Redis.Counts.{at_sale}
use flash_sale.Reservation.{Service, release_reserved, release}
use flash_sale.Reservation.Keepsake.{announce_return-Yields}
use flash_sale.Reservation.Quiet.{announce_return-Quiet}
use flash_sale.Reservation.Sync.{InSync, reserved_in, sold_in}
use flash_sale.Reservation.Release.{
  restate, restate_left, release_reserved_lem, release_found, restate_valid, returned-InSync,
  leaves, unconfirmed, at_sale_flip,
}

module _ (E : Platform) (totals : ℕ → ℕ) (svc : Service) where
  -- After a Release of a reserved row: the row is released, and one row less is reserved.
  pub record Gone (w w1 : World E) (id : ℕ) (row : ReservationRow) : Type 0 where
    pub found_now :
        find_reservation id w1.db.reservations ≡ some (restate ReservationStatus.released row)
    pub one_less : (b : ℕ) → reserved_in w1.db b + at_sale row.sale_id b ≡ reserved_in w.db b
    pub same_sold : (b : ℕ) → sold_in w1.db b ≡ sold_in w.db b

  pub first_release :
      (w : World E) (id : ℕ) (row : ReservationRow)
      → InSync E totals w
      → find_reservation id w.db.reservations ≡ some row
      → is_reserved row.status ≡ true
      → ((release E svc id w).0 ≡ ok tt) × Gone w (release E svc id w).1 id row
  unfolding set_status
  first_release w id row h found is_res =
      let st = ReservationStatus.released in
      let w0 : World E = record w { faults = [] } in
      let h0 : InSync E totals w0 = record {
        calm = refl;
        rows_valid = h.rows_valid;
        counts = h.counts;
      } in
      let (t, written, synced) = returned-InSync E totals w0 id row h0 found is_res st refl in
      let (rs, u, gone) =
        leaves E totals w0 id row h0 found is_res (restate st) (restate_left st row refl)
          (restate_valid st row refl (unconfirmed E totals w0 id row h0 found is_res)) in
      let both : some (record w.db { reservations = rs }) ≡ some t =
        sym (ap (with_reservations w.db) u) ∙ written in
      let tables : record w.db { reservations = rs } ≡ t = cc in
      let own_id = find-id id w.db.reservations row found in
      let sale = row.sale_id in
      let w2 : World E = record (after_release E w0 row.sale_id) { db = t; faults = [] } in
      let e =
        release_found E totals svc id w row h.calm found
        ∙ ap
            (λ b.
              (if b then release_reserved E svc row.reservation else fail Error.not_reserved) w0)
            is_res
        ∙ release_reserved_lem E totals svc w0 id row h0 found is_res in
      let quiet = (announce_return-Quiet E svc row.id row.sale_id EventType.released).holds w2 in
      let less : (b : ℕ) → reserved_rows b rs + at_sale sale b ≡ reserved_in w.db b =
        λ b. omega (arith, gone.one_less b, at_sale_flip sale b) in
      rw e (
        (announce_return-Yields E svc row.reservation EventType.released).yields w2,
        record {
          found_now =
              ap (λ x. find_reservation id x.reservations) quiet.tables
              ∙ ap (λ x. find_reservation id x.reservations) (sym tables)
              ∙ find-update (restate st) id w.db.reservations rs row found own_id u;
          one_less = λ b.
              ap (λ x. reserved_rows b x.reservations + at_sale sale b) quiet.tables
              ∙ ap (λ x. reserved_rows b x.reservations + at_sale sale b) (sym tables)
              ∙ less b;
          same_sold = λ b.
              ap (λ x. count_orders b x) quiet.tables ∙ ap (λ x. count_orders b x) (sym tables);
        },
      )

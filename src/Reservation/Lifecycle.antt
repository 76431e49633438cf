-- ===== src/Reservation/Lifecycle.antt =====
-- A unit that is reserved and then released.
use flash_sale.Common.{
  ℕ, ◌+◌, ◌<◌, ◌≡◌, refl, sym, ap, ◌∙◌, some, none, [], ◌∷◌, Text, false, arith,
}
use flash_sale.Platform.{Platform}
use flash_sale.Models.{ReservationStatus}
use flash_sale.Database.{Tables, insert_reservation, find_reservation, count_orders}
use flash_sale.Database.Rows.{insert_reservation-some, reserved_rows}
use flash_sale.Effects.{World, ok}
use flash_sale.Redis.Keys.{available_key, reserved_key, idempotency_key}
use flash_sale.Redis.Counters.{counter}
use flash_sale.Redis.Counts.{at_sale}
use flash_sale.Redis.ClientCalm.{after_reserve}
use flash_sale.Reservation.{Service, is_empty, new_reservation, unpromoted, reserve, release}
use flash_sale.Reservation.Quiet.{announce_reservation-Quiet}
use flash_sale.Reservation.Sync.{InSync, reserved_in, sold_in}
use flash_sale.Reservation.Reserve.{reserve-InSync}
use flash_sale.Reservation.Release.{restate, release-InSync}
use flash_sale.Reservation.Returned.{first_release}
use flash_sale.Reservation.Idempotent.{reserve_written, reserve_first}

module _ (E : Platform) (totals : ℕ → ℕ) where
  -- Counters in step with the same rows are the same.
  same_counters :
      (w w' : World E) (b : ℕ)
      → InSync E totals w
      → InSync E totals w'
      → reserved_in w'.db b ≡ reserved_in w.db b
      → sold_in w'.db b ≡ sold_in w.db b
      → (counter E w'.redis (available_key E b) ≡ counter E w.redis (available_key E b))
        × (counter E w'.redis (reserved_key E b) ≡ counter E w.redis (reserved_key E b))
  same_counters w w' b h h' same_q same_o =
      let c = h.counts b in
      let c' = h'.counts b in
      (
        c'.available_held ∙ rw (same_q, same_o) (sym c.available_held),
        c'.reserved_held ∙ rw same_q (sym c.reserved_held),
      )

  module _ (svc : Service) (user sale item : ℕ) (key : Text) (id now : ℕ) (w : World E)
      (named : is_empty key ≡ false) where
    -- How many rows are reserved and orders count after a first request.
    reserve_counts :
        (t : Tables)
        → InSync E totals w
        → reserved_in w.db sale + sold_in w.db sale < totals sale
        → E.lookup w.redis (idempotency_key E sale key) ≡ none
        → insert_reservation (unpromoted E (new_reservation E svc user sale item id now)) w.db
          ≡ some t
        → let w1 = (reserve E svc user sale item key id now w).1 in
          (b : ℕ)
          → (reserved_in w1.db b ≡ reserved_in w.db b + at_sale sale b)
            × (sold_in w1.db b ≡ sold_in w.db b)
    reserve_counts t sync room fresh inserted b =
        let r = new_reservation E svc user sale item id now in
        let w2 : World E = record (after_reserve E (record w { faults = [] }) sale) {
          db = t;
          faults = [];
        } in
        let (rows, valid) = insert_reservation-some (unpromoted E r) w.db inserted in
        let quiet = (announce_reservation-Quiet E svc key r).holds w2 in
        let e =
          reserve_written E sale key named totals svc user item id now w t sync room fresh
            inserted in
        let one_more : reserved_rows b (unpromoted E r ∷ w.db.reservations)
            ≡ reserved_in w.db b + at_sale sale b =
          ground arith in
        rw e (
          ap (λ u. reserved_rows b u.reservations) quiet.tables
              ∙ ap (λ u. reserved_rows b u.reservations) (sym rows)
              ∙ one_more,
          ap (λ u. count_orders b u) quiet.tables ∙ ap (λ u. count_orders b u) (sym rows),
        )

    -- From a state in step and without network faults, a request of a sale with a unit left, with
    -- a key that is not used yet and a row that the table takes, and then Release of that
    -- reservation, both succeed; the row is released, and of every sale as many rows are reserved
    -- and as many orders count as before, and both counters are as before.
    pub release-reserve :
        (t : Tables)
        → InSync E totals w
        → reserved_in w.db sale + sold_in w.db sale < totals sale
        → E.lookup w.redis (idempotency_key E sale key) ≡ none
        → insert_reservation (unpromoted E (new_reservation E svc user sale item id now)) w.db
          ≡ some t
        → let r = new_reservation E svc user sale item id now in
          let (made, w1) = reserve E svc user sale item key id now w in
          let (gone, w2) = release E svc id w1 in
          (made ≡ ok r)
          × (gone ≡ ok tt)
          × (find_reservation id w2.db.reservations
              ≡ some (restate ReservationStatus.released (unpromoted E r)))
          × ((b : ℕ)
              → (reserved_in w2.db b ≡ reserved_in w.db b)
                × (sold_in w2.db b ≡ sold_in w.db b)
                × (counter E w2.redis (available_key E b) ≡ counter E w.redis (available_key E b))
                × (counter E w2.redis (reserved_key E b) ≡ counter E w.redis (reserved_key E b)))
    release-reserve t sync room fresh inserted =
        let r = new_reservation E svc user sale item id now in
        let w1 = (reserve E svc user sale item key id now w).1 in
        let w2 = (release E svc id w1).1 in
        let (made, kept) =
          reserve_first E sale key named totals svc user item id now w t sync room fresh inserted in
        let sync1 = reserve-InSync E totals svc user sale item key id now w sync in
        let (gone, back) =
          first_release E totals svc w1 id (unpromoted E r) sync1 kept.found refl in
        let same_q : (b : ℕ) → reserved_in w2.db b ≡ reserved_in w.db b =
          λ b. omega (arith, back.one_less b, (reserve_counts t sync room fresh inserted b).0) in
        let same_o : (b : ℕ) → sold_in w2.db b ≡ sold_in w.db b =
          λ b. back.same_sold b ∙ (reserve_counts t sync room fresh inserted b).1 in
        (
          made,
          gone,
          back.found_now,
          λ b.
              let (available, reserved) =
                same_counters w w2 b sync (release-InSync E totals svc id w1 sync1) (same_q b)
                  (same_o b) in
              (same_q b, same_o b, available, reserved),
        )

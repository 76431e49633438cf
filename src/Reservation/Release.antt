-- ===== src/Reservation/Release.antt =====
-- Service.Release keeps the counters in step with the rows; its two writes, shared with the expiry
-- handler, are stated for any final state of the row that is neither reserved nor confirmed.
use flash_sale.Common.{
  ℕ, ◌≤◌, ◌≡◌, refl, sym, ap, subst, ◌∙◌, some, none, [], List, arith, Bool, true, false, ◌==◌,
  if◌then◌else◌, Option-cases, Bool-cases, inl, inr, ◌⊎◌,
}
use flash_sale.Platform.{Platform}
use flash_sale.Models.{ReservationStatus, EventType}
use flash_sale.Database.{
  Tables, ReservationRow, find_reservation, is_reserved, valid_confirmation, mark, update_row,
  set_status,
}
use flash_sale.Database.Rows.{Leaves, update-Leaves, find-valid, find-id, reserved_unconfirmed}
use flash_sale.Effects.{World, Error, ◌>>◌, wrap, db_exec, db_query}
use flash_sale.Effects.Steps.{bind-ok, bind-err, then-ok, wrap-ok, wrap-err}
use flash_sale.Effects.Calm.{db_exec_done, db_query_found, db_query_missing}
use flash_sale.Redis.Counts.{at_sale, at_self, recount}
use flash_sale.Redis.Moves.{release-AllCounts}
use flash_sale.Redis.Client
use flash_sale.Redis.ClientCalm.{release_calm, after_release}
use flash_sale.Reservation.{Service, announce_return, release_reserved, release_row, release}
use flash_sale.Reservation.Quiet.{announce_return-Quiet}
use flash_sale.Reservation.Sync.{InSync, quiet-sync, reserved_in, sold_in}

-- A state that gives the unit back.
abbrev pub gives_back : ReservationStatus → Bool
gives_back ReservationStatus.released = true
gives_back ReservationStatus.expired = true
gives_back _ = false

abbrev pub restate : ReservationStatus → ReservationRow → ReservationRow
restate st r = mark st r.confirmed_at r

pub restate_left :
    (st : ReservationStatus) (r : ReservationRow)
    → gives_back st ≡ true
    → is_reserved (restate st r).status ≡ false
restate_left st r h = ground arith

pub restate_valid :
    (st : ReservationStatus) (r : ReservationRow)
    → gives_back st ≡ true
    → r.confirmed_at ≡ none
    → valid_confirmation (restate st r) ≡ true
restate_valid st r h e = ground arith

pub at_sale_flip : (sale b : ℕ) → at_sale sale b ≡ (if sale == b then 1 else 0)
at_sale_flip sale b = ground arith

module _ (E : Platform) (totals : ℕ → ℕ) (w : World E) (id : ℕ) (row : ReservationRow)
    (h : InSync E totals w) (found : find_reservation id w.db.reservations ≡ some row)
    (is_res : is_reserved row.status ≡ true) where
  pub leaves :
      (f : ReservationRow → ReservationRow)
      → is_reserved (f row).status ≡ false
      → valid_confirmation (f row) ≡ true
      → (rs : List ReservationRow) × (update_row f id w.db.reservations ≡ some rs)
        × Leaves row w.db.reservations rs
  leaves f left valid =
      update-Leaves f row is_res left valid id w.db.reservations h.rows_valid found

  pub unconfirmed : row.confirmed_at ≡ none
  unconfirmed =
      reserved_unconfirmed row (find-valid id w.db.reservations row h.rows_valid found) is_res

  -- A reserved row is counted.
  pub counted : 1 ≤ reserved_in w.db row.sale_id
  counted =
      let (rs, u, l) =
        leaves (restate ReservationStatus.released) refl
          (restate_valid ReservationStatus.released row refl unconfirmed) in
      omega
        (arith, l.one_less row.sale_id, at_self row.sale_id, at_sale_flip row.sale_id row.sale_id)

  -- The unit goes back in Redis, and the row leaves the reserved state: the two stay in step.
  pub returned-InSync :
      (st : ReservationStatus)
      → gives_back st ≡ true
      → (t : Tables) × (set_status st id w.db ≡ some t)
        × InSync E totals (record (after_release E w row.sale_id) { db = t; faults = [] })
  unfolding set_status
  returned-InSync st back =
      let (rs, u, l) =
        leaves (restate st) (restate_left st row back) (restate_valid st row back unconfirmed) in
      let counts =
        (release-AllCounts E totals (reserved_in w.db) (sold_in w.db) w.redis row.sale_id h.counts
          counted).1 in
      (
        record w.db { reservations = rs },
        rw u,
        record {
          calm = refl;
          rows_valid = l.still_valid;
          counts = λ b.
              recount E (omega (arith, l.one_less b, at_sale_flip row.sale_id b)) refl (counts b);
        },
      )

module _ (E : Platform) (totals : ℕ → ℕ) (svc : Service) where
  -- Release of a reserved row: the unit is back and the row is written before the world is told.
  pub release_reserved_lem :
      (w : World E) (id : ℕ) (row : ReservationRow) (h : InSync E totals w)
      (found : find_reservation id w.db.reservations ≡ some row)
      (is_res : is_reserved row.status ≡ true)
      → release_reserved E svc row.reservation w
        ≡ announce_return E svc row.id row.sale_id EventType.released
            (record (after_release E w row.sale_id) {
              db =
                  (returned-InSync E totals w id row h found is_res ReservationStatus.released
                    refl).0;
              faults = [];
            })
  unfolding release_reserved
  release_reserved_lem w id row h found is_res =
      let (t, written, synced) =
        returned-InSync E totals w id row h found is_res ReservationStatus.released refl in
      let w1 = after_release E w row.sale_id in
      let same_id = find-id id w.db.reservations row found in
      let released =
        release_calm E totals (reserved_in w.db) (sold_in w.db) w row.sale_id h.calm h.counts
          (counted E totals w id row h found is_res) in
      let update = db_exec (set_status ReservationStatus.released row.id) in
      let rest =
        wrap Error.update_failed update
        >> announce_return E svc row.id row.sale_id EventType.released in
      let done =
        db_exec_done w1 refl (set_status ReservationStatus.released row.id)
          (ap (λ i. set_status ReservationStatus.released i w.db) same_id ∙ written) in
      then-ok (wrap Error.redis_release_failed (Client.release E row.sale_id)) rest
        (wrap-ok (Client.release E row.sale_id) Error.redis_release_failed released)
      ∙ then-ok (wrap Error.update_failed update)
          (announce_return E svc row.id row.sale_id EventType.released)
          (wrap-ok update Error.update_failed done)

  release_reserved-InSync :
      (w : World E) (id : ℕ) (row : ReservationRow)
      → InSync E totals w
      → find_reservation id w.db.reservations ≡ some row
      → is_reserved row.status ≡ true
      → InSync E totals (release_reserved E svc row.reservation w).1
  release_reserved-InSync w id row h found is_res =
      let (t, written, synced) =
        returned-InSync E totals w id row h found is_res ReservationStatus.released refl in
      subst (λ p. InSync E totals p.1) (sym (release_reserved_lem w id row h found is_res))
        ((quiet-sync E totals _
            (announce_return-Quiet E svc row.id row.sale_id EventType.released)).holds
          _ synced)

  -- Release goes on with the row that it finds.
  pub release_found :
      (id : ℕ) (w : World E) (row : ReservationRow)
      → w.faults ≡ []
      → find_reservation id w.db.reservations ≡ some row
      → release E svc id w ≡ release_row E svc row (record w { faults = [] })
  unfolding release
  release_found id w row calm found =
      let query = λ (t : Tables). find_reservation id t.reservations in
      bind-ok (wrap Error.reservation_not_found (db_query query)) (release_row E svc)
        (wrap-ok (db_query query) Error.reservation_not_found (db_query_found w calm query found))

  -- Service.Release keeps the counters of every sale in step with the rows, on every branch of a
  -- run without network faults.
  pub release-InSync :
      (id : ℕ) (w : World E) → InSync E totals w → InSync E totals (release E svc id w).1
  unfolding release
  release-InSync id w h =
      let query = λ (t : Tables). find_reservation id t.reservations in
      let w0 = record w { faults = [] } in
      let h0 : InSync E totals w0 = record {
        calm = refl;
        rows_valid = h.rows_valid;
        counts = h.counts;
      } in
      elim (Option-cases (query w.db)) [
        | inl missing ↦
            subst (λ p. InSync E totals p.1)
              (sym (
                bind-err (wrap Error.reservation_not_found (db_query query)) (release_row E svc) (
                  wrap-err (db_query query) Error.reservation_not_found
                    (db_query_missing w h.calm query missing))))
              h0
        | inr (row, found) ↦
            subst (λ p. InSync E totals p.1) (sym (release_found id w row h.calm found))
              (branch w0 row h0 found (Bool-cases (is_reserved row.status)))
      ]
    where
      branch :
          (w0 : World E) (row : ReservationRow)
          → InSync E totals w0
          → find_reservation id w0.db.reservations ≡ some row
          → (is_reserved row.status ≡ true) ⊎ (is_reserved row.status ≡ false)
          → InSync E totals (release_row E svc row w0).1
      branch w0 row h0 found (inl is_res) =
          rw is_res (release_reserved-InSync w0 id row h0 found is_res)
      branch w0 row h0 found (inr not_res) = rw not_res h0

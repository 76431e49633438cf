-- ===== src/Reservation/Idempotent.antt =====
-- A reservation that succeeds, and the same request once more.
use flash_sale.Common.{ℕ, ◌+◌, ◌<◌, ◌≡◌, refl, sym, ap, ◌∙◌, none, some, [], Text, false, ==_iff}
use flash_sale.Platform.{Platform}
use flash_sale.Models.{Reservation}
use flash_sale.Database.{Tables, insert_reservation, find_reservation}
use flash_sale.Database.Rows.{insert_reservation-some}
use flash_sale.Effects.{World, ok, err, Error, wrap, attempt, db_exec}
use flash_sale.Effects.Steps.{bind-ok, attempt-ok, wrap-ok}
use flash_sale.Effects.Calm.{db_exec_done}
use flash_sale.Redis.Keys.{idempotency_key}
use flash_sale.Redis.Client
use flash_sale.Redis.ClientCalm.{reserve_calm, after_reserve, reserve_full}
use flash_sale.Reservation.{
  Service, replay, announce_reservation, record_reservation, settle_insert, settle_reserve,
  unpromoted, reserve_new, reserve, new_reservation, unless_replayed, is_empty,
}
use flash_sale.Reservation.Sync.{InSync, reserved_in, sold_in}
use flash_sale.Reservation.Remembered.{Remembered, reserve-Remembered, announced, replay_fresh}

module _ (E : Platform) (sale : ℕ) (key : Text) (named : is_empty key ≡ false) where
  module _ (totals : ℕ → ℕ) (svc : Service) (user item id now : ℕ) (w : World E) where
    abbrev pub wanted : Reservation
    wanted = new_reservation E svc user sale item id now

    -- A first request with its key, up to where its row is written.
    pub reserve_written :
        (t : Tables)
        → InSync E totals w
        → reserved_in w.db sale + sold_in w.db sale < totals sale
        → E.lookup w.redis (idempotency_key E sale key) ≡ none
        → insert_reservation (unpromoted E wanted) w.db ≡ some t
        → reserve E svc user sale item key id now w
          ≡ announce_reservation E svc key wanted
              (record (after_reserve E (record w { faults = [] }) sale) { db = t; faults = [] })
    unfolding reserve reserve_new record_reservation
    reserve_written t sync room fresh inserted =
        let r = new_reservation E svc user sale item id now in
        let w0 : World E = record w { faults = [] } in
        let insert = insert_reservation (unpromoted E r) in
        let taken =
          reserve_calm E totals (reserved_in w.db) (sold_in w.db) w0 sale refl sync.counts room in
        bind-ok (replay E sale key) (unless_replayed E (reserve_new E svc key r))
          (replay_fresh E sale key named w sync.calm fresh)
        ∙ bind-ok (wrap Error.redis_reserve_failed (Client.reserve E sale))
            (settle_reserve E svc key r)
            (wrap-ok (Client.reserve E sale) Error.redis_reserve_failed taken)
        ∙ bind-ok (attempt (db_exec insert)) (settle_insert E svc key r) (
            attempt-ok (db_exec insert)
              (db_exec_done (after_reserve E w0 sale) refl insert inserted))

    -- The reservation is made and returned.
    pub reserve_first :
        (t : Tables)
        → InSync E totals w
        → reserved_in w.db sale + sold_in w.db sale < totals sale
        → E.lookup w.redis (idempotency_key E sale key) ≡ none
        → insert_reservation (unpromoted E wanted) w.db ≡ some t
        → let (res, w1) = reserve E svc user sale item key id now w in
          (res ≡ ok wanted) × Remembered E sale key named id (unpromoted E wanted) w1
    reserve_first t sync room fresh inserted =
        let r = new_reservation E svc user sale item id now in
        let w0 : World E = record w { faults = [] } in
        let w2 : World E = record (after_reserve E w0 sale) { db = t; faults = [] } in
        let (rows, valid) = insert_reservation-some (unpromoted E r) w.db inserted in
        let found : find_reservation id t.reservations ≡ some (unpromoted E r) =
          ap (λ u. find_reservation id u.reservations) (sym rows) ∙ rw ((==_iff id id).1 refl) in
        rw (reserve_written t sync room fresh inserted)
          (announced E sale key named svc r refl w2 (unpromoted E r) refl found)

    -- From a state in step and without network faults, a request of a sale with a unit left, with
    -- a key that is not used yet and a row that the table takes, returns its reservation and
    -- leaves its row; and any second request of that sale with the same key, by whichever user and
    -- for whichever item, returns the same reservation and changes nothing.
    pub reserve-reserve :
        (t : Tables) (user' item' id' now' : ℕ)
        → InSync E totals w
        → reserved_in w.db sale + sold_in w.db sale < totals sale
        → E.lookup w.redis (idempotency_key E sale key) ≡ none
        → insert_reservation (unpromoted E (new_reservation E svc user sale item id now)) w.db
          ≡ some t
        → let r = new_reservation E svc user sale item id now in
          let (res, w1) = reserve E svc user sale item key id now w in
          (res ≡ ok r)
          × (find_reservation id w1.db.reservations ≡ some (unpromoted E r))
          × (reserve E svc user' sale item' key id' now' w1 ≡ (ok r, w1))
    reserve-reserve t user' item' id' now' sync room fresh inserted =
        let (res, h) = reserve_first t sync room fresh inserted in
        let r = new_reservation E svc user sale item id now in
        let w1 = (reserve E svc user sale item key id now w).1 in
        (
          res,
          h.found,
          reserve-Remembered E sale key named svc user' item' id' now' id (unpromoted E r) w1 h
              ∙ ap (λ f. (ok r, record w1 { faults = f })) (sym h.calm),
        )

    -- From a state in step and without network faults, a request of a sale whose rows use up its
    -- total, with a key that is not used yet, fails as sold out and changes nothing.
    pub reserve_sold_out_calm :
        InSync E totals w
        → reserved_in w.db sale + sold_in w.db sale ≡ totals sale
        → E.lookup w.redis (idempotency_key E sale key) ≡ none
        → reserve E svc user sale item key id now w ≡ (err Error.sold_out, record w { faults = [] })
    unfolding reserve reserve_new
    reserve_sold_out_calm sync full fresh =
        let r = new_reservation E svc user sale item id now in
        let w0 : World E = record w { faults = [] } in
        let refused =
          reserve_full E totals (reserved_in w.db) (sold_in w.db) w0 sale refl sync.counts full in
        bind-ok (replay E sale key) (unless_replayed E (reserve_new E svc key r))
          (replay_fresh E sale key named w sync.calm fresh)
        ∙ bind-ok (wrap Error.redis_reserve_failed (Client.reserve E sale))
            (settle_reserve E svc key r)
            (wrap-ok (Client.reserve E sale) Error.redis_reserve_failed refused)

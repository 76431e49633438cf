-- ===== src/Reservation/Remembered.antt =====
-- A key that leads to the row of its reservation, and what a request with it does.
use flash_sale.Common.{ℕ, ◌≡◌, refl, sym, ap, ◌∙◌, none, some, [], Text, false}
use flash_sale.Common.Int.{pos}
use flash_sale.Platform.{Platform}
use flash_sale.Platform.Keyspace.{num, text, str}
use flash_sale.Models.{Reservation}
use flash_sale.Database.{Tables, ReservationRow, find_reservation}
use flash_sale.Effects.{World, ok, Error, ◌>>=◌, ◌>>◌, wrap, attempt, pure, db_query, redis_call}
use flash_sale.Effects.Steps.{bind-ok, then-ok, attempt-ok, attempt-err, wrap-ok}
use flash_sale.Effects.Calm.{redis_call_calm, db_query_found}
use flash_sale.Redis.Script.{get}
use flash_sale.Redis.Keys.{ttl_key, idempotency_key}
use flash_sale.Redis.Counters.{lookup-set_self}
use flash_sale.Reservation.{
  Service, set_ttl, set_idempotency, check_idempotency, replay, remember, announce_reservation,
  reserve_new, reserve, scalar_id, new_reservation, unless_replayed, is_empty,
}
use flash_sale.Reservation.Keepsake.{tail, tail-Same, tail-Yields}

module _ (E : Platform) (sale : ℕ) (key : Text) (named : is_empty key ≡ false) where
  -- The key leads to a row.
  pub record Remembered (id : ℕ) (row : ReservationRow) (w : World E) : Type 0 where
    pub calm : w.faults ≡ []
    pub held : E.lookup w.redis (idempotency_key E sale key) ≡ some (str (text (E.uuid_string id)))
    pub found : find_reservation id w.db.reservations ≡ some row

  -- A request with a key that leads to a row is answered by that row, and nothing else happens.
  replay-Remembered :
      (id : ℕ) (row : ReservationRow) (w : World E)
      → Remembered id row w
      → replay E sale key w
        ≡ (ok (some (record row.reservation { confirmed_at = none })), record w { faults = [] })
  unfolding replay check_idempotency
  replay-Remembered id row w h =
      let w0 : World E = record w { faults = [] } in
      let ask = redis_call (get E (idempotency_key E sale key)) in
      let query = λ (t : Tables). find_reservation id t.reservations in
      rw named (
        attempt-ok (check_idempotency E sale key) (
          bind-ok ask
            (λ value. do
              i ← scalar_id E value
              row ← db_query (λ t. find_reservation i t.reservations)
              pure (record row.reservation { confirmed_at = none }))
            {a = some (text (E.uuid_string id))}
            (redis_call_calm w h.calm (get E (idempotency_key E sale key)) (rw h.held))
          ∙ bind-ok (scalar_id E (some (text (E.uuid_string id))))
              (λ i. do
                row ← db_query (λ t. find_reservation i t.reservations)
                pure (record row.reservation { confirmed_at = none }))
              {a = id} (rw (E.parse-uuid_string id, scalar_id))
          ∙ bind-ok (db_query query) (λ row. pure (record row.reservation { confirmed_at = none }))
              (db_query_found w0 refl query h.found)))

  -- A later request with a key that leads to a row.
  pub reserve-Remembered :
      (svc : Service) (user item id now old : ℕ) (row : ReservationRow) (w : World E)
      → Remembered old row w
      → reserve E svc user sale item key id now w
        ≡ (ok (record row.reservation { confirmed_at = none }), record w { faults = [] })
  unfolding reserve
  reserve-Remembered svc user item id now old row w h =
      bind-ok (replay E sale key)
        (unless_replayed E (reserve_new E svc key (new_reservation E svc user sale item id now)))
        (replay-Remembered old row w h)

  module _ (svc : Service) (r : Reservation) (same_sale : r.sale_id ≡ sale) where
    -- Announcing a reservation without faults returns it, and the key leads to the row.
    pub announced :
        (w : World E) (row : ReservationRow)
        → w.faults ≡ []
        → find_reservation r.id w.db.reservations ≡ some row
        → ((announce_reservation E svc key r w).0 ≡ ok r)
          × Remembered r.id row (announce_reservation E svc key r w).1
    unfolding announce_reservation set_ttl set_idempotency
    announced w row calm found =
        let w1 : World E = record w {
          redis = E.set (ttl_key E r.id) (num (pos 1)) svc.reservation_ttl w.redis;
          faults = [];
        } in
        let w2 : World E = record w1 {
          redis =
              E.set (idempotency_key E r.sale_id key) (text (E.uuid_string r.id)) 86400 w1.redis;
          faults = [];
        } in
        let rest = tail E svc r in
        let armed =
          redis_call_calm w calm
            (λ s. (some tt, E.set (ttl_key E r.id) (num (pos 1)) svc.reservation_ttl s)) {a = tt}
            refl in
        let noted : remember E key r w1 ≡ (ok tt, w2) = rw named (
          then-ok (attempt (set_idempotency E r.sale_id key r.id)) (pure tt) (
            attempt-ok (set_idempotency E r.sale_id key r.id) (
              redis_call_calm w1 refl
                (λ s. (
                  some tt,
                  E.set (idempotency_key E r.sale_id key) (text (E.uuid_string r.id)) 86400 s,
                ))
                {a = tt} refl))) in
        let e : announce_reservation E svc key r w ≡ rest w2 =
          then-ok (wrap Error.set_ttl_failed (set_ttl E svc.reservation_ttl r.id))
            (remember E key r >> rest)
            (wrap-ok (set_ttl E svc.reservation_ttl r.id) Error.set_ttl_failed armed)
          ∙ then-ok (remember E key r) rest noted in
        let kept = (tail-Same E svc r).holds w2 in
        rw e (
          (tail-Yields E svc r).yields w2,
          record {
            calm = kept.calm refl;
            held =
                ap (λ f. f (idempotency_key E sale key)) (kept.keys refl)
                ∙ ap (λ s. E.lookup w2.redis (idempotency_key E s key)) (sym same_sale)
                ∙ lookup-set_self E (idempotency_key E r.sale_id key) (text (E.uuid_string r.id))
                    86400 w1.redis;
            found = ap (find_reservation r.id) (kept.rows refl) ∙ found;
          },
        )

  pub replay_fresh :
      (w : World E)
      → w.faults ≡ []
      → E.lookup w.redis (idempotency_key E sale key) ≡ none
      → replay E sale key w ≡ (ok none, record w { faults = [] })
  unfolding replay check_idempotency
  replay_fresh w calm absent =
      let ask = redis_call (get E (idempotency_key E sale key)) in
      rw named (
        attempt-err (check_idempotency E sale key) {y = Error.no_rows} (
          bind-ok ask
            (λ value. do
              i ← scalar_id E value
              row ← db_query (λ t. find_reservation i t.reservations)
              pure (record row.reservation { confirmed_at = none }))
            {a = none} (redis_call_calm w calm (get E (idempotency_key E sale key)) (rw absent))))

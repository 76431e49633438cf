-- ===== src/Reservation/Reserve.antt =====
-- Service.Reserve keeps the counters in step with the rows.
use flash_sale.Common.{
  ℕ, ◌+◌, ◌≡◌, refl, sym, ◌∙◌, Option, some, none, [], Text, arith, Option-cases, inl, inr, subst,
}
use native.Mathlib.Decide.{dec_lt}
use flash_sale.Platform.{Platform}
use flash_sale.Platform.Keyspace.{Scalar, num, text}
use flash_sale.Models.{Reservation, ReservationStatus}
use flash_sale.Database.{Tables, insert_reservation}
use flash_sale.Effects.{World, Action, Error, attempt, wrap, pure, fail, db_exec, db_query}
use flash_sale.Effects.Keeps.{Keeps, pure-Keeps, fail-Keeps, attempt-Keeps, bind-Keeps, if-Keeps}
use flash_sale.Effects.Steps.{bind-ok, attempt-ok, attempt-err, wrap-ok}
use flash_sale.Effects.Calm.{db_exec_done, db_exec_failed}
use flash_sale.Redis.Moves.{reserve-AllCounts}
use flash_sale.Redis.Client
use flash_sale.Redis.ClientCalm.{reserve_calm, reserve_full, after_reserve}
use flash_sale.Reservation.{
  Service, replay, check_idempotency, scalar_id, record_reservation, settle_insert, unpromoted,
  settle_reserve, unless_replayed, reserve_new, reserve, new_reservation, is_empty,
}
use flash_sale.Reservation.Quiet.{quiet, SameStock-refl, get-Quiet, announce_reservation-Quiet}
use flash_sale.Reservation.Taken.{Taken, give_back-InSync, inserted-InSync}
use flash_sale.Reservation.Sync.{InSync, sync, quiet-sync, reserved_in, sold_in}

module _ (E : Platform) where
  pub db_query-Quiet : {A : Type 0} (f : Tables → Option A) → Keeps (quiet E) (db_query f)
  unfolding db_query
  db_query-Quiet f = record {
    holds = λ w. record { stock = SameStock-refl E w.redis; tables = refl; calm = λ e. rw e };
  }

  scalar_id-Quiet : (v : Option Scalar) → Keeps (quiet E) (scalar_id E v)
  scalar_id-Quiet none = fail-Keeps (quiet E) ℕ Error.no_rows
  scalar_id-Quiet (some (num n)) = fail-Keeps (quiet E) ℕ Error.parse_failed
  scalar_id-Quiet (some (text t)) = parsed (E.parse_uuid t)
    where
      parsed :
          (r : Option ℕ)
          → Keeps
              (quiet E)
              (elim r as (λ _. Action E ℕ) [ none ↦ fail Error.parse_failed | some id ↦ pure id ])
      parsed none = fail-Keeps (quiet E) ℕ Error.parse_failed
      parsed (some id) = pure-Keeps (quiet E) id

  pub replay-Quiet : (sale : ℕ) (key : Text) → Keeps (quiet E) (replay E sale key)
  unfolding replay check_idempotency
  replay-Quiet sale key = if-Keeps (quiet E) (is_empty key) _ _ (pure-Keeps (quiet E) none) (
      attempt-Keeps (quiet E) _ (
        bind-Keeps (quiet E) _ _ (get-Quiet E _) λ v.
          bind-Keeps (quiet E) _ _ (scalar_id-Quiet v)
            λ id. bind-Keeps (quiet E) _ _ (db_query-Quiet _) λ row. pure-Keeps (quiet E) _))

module _ (E : Platform) (totals : ℕ → ℕ) (svc : Service) (key : Text) (r : Reservation) where
  -- The unit is taken in Redis: the row is written, or the unit is given back.
  record_reservation-InSync :
      (w : World E)
      → r.status ≡ ReservationStatus.reserved
      → Taken E totals r.sale_id w
      → InSync E totals (record_reservation E svc key r w).1
  unfolding record_reservation
  record_reservation-InSync w st h =
      let insert = insert_reservation (unpromoted E r) in
      elim (Option-cases (insert w.db)) [
        | inl refused ↦
            let w1 : World E = record w { faults = [] } in
            let h1 : Taken E totals r.sale_id w1 = record {
              calm = refl;
              rows_valid = h.rows_valid;
              counts = h.counts;
            } in
            let (back, synced) =
              give_back-InSync E totals r.sale_id w1 Error.create_reservation_failed h1 in
            subst (λ p. InSync E totals p.1)
              (sym (
                bind-ok (attempt (db_exec insert)) (settle_insert E svc key r)
                  (attempt-err (db_exec insert) (db_exec_failed w h.calm insert refused))
                ∙ back))
              synced
        | inr (t, inserted) ↦
            let w1 : World E = record w { db = t; faults = [] } in
            let written =
              inserted-InSync E totals r.sale_id w (unpromoted E r) t h refl (rw st) inserted in
            subst (λ p. InSync E totals p.1)
              (sym (
                bind-ok (attempt (db_exec insert)) (settle_insert E svc key r)
                  (attempt-ok (db_exec insert) (db_exec_done w h.calm insert inserted))))
              ((quiet-sync E totals _ (announce_reservation-Quiet E svc key r)).holds w1 written)
      ]

  -- The unit is taken and the row is written, or nothing is left of the call.
  reserve_new-InSync :
      (w : World E)
      → r.status ≡ ReservationStatus.reserved
      → InSync E totals w
      → InSync E totals (reserve_new E svc key r w).1
  unfolding reserve_new
  reserve_new-InSync w st h =
      elim (dec_lt (reserved_in w.db r.sale_id + sold_in w.db r.sale_id) (totals r.sale_id)) [
        | yes room ↦
            let taken =
              reserve_calm E totals (reserved_in w.db) (sold_in w.db) w r.sale_id h.calm h.counts
                room in
            let counts =
              (reserve-AllCounts E totals (reserved_in w.db) (sold_in w.db) w.redis r.sale_id
                h.counts room).1 in
            subst (λ p. InSync E totals p.1)
              (sym (
                bind-ok (wrap Error.redis_reserve_failed (Client.reserve E r.sale_id))
                  (settle_reserve E svc key r)
                  (wrap-ok (Client.reserve E r.sale_id) Error.redis_reserve_failed taken)))
              (record_reservation-InSync (after_reserve E w r.sale_id) st
                (record { calm = refl; rows_valid = h.rows_valid; counts = counts }))
        | no full ↦
            let refused =
              reserve_full E totals (reserved_in w.db) (sold_in w.db) w r.sale_id h.calm h.counts
                (omega (arith, (h.counts r.sale_id).within)) in
            subst (λ p. InSync E totals p.1)
              (sym (
                bind-ok (wrap Error.redis_reserve_failed (Client.reserve E r.sale_id))
                  (settle_reserve E svc key r)
                  (wrap-ok (Client.reserve E r.sale_id) Error.redis_reserve_failed refused)))
              (record { calm = refl; rows_valid = h.rows_valid; counts = h.counts })
      ]

module _ (E : Platform) (totals : ℕ → ℕ) where
  pub unless_replayed-Keeps :
      {A : Type 0} (m : Action E A) (o : Option A)
      → Keeps (sync E totals) m
      → Keeps (sync E totals) (unless_replayed E m o)
  unless_replayed-Keeps m none h = h
  unless_replayed-Keeps m (some a) h = pure-Keeps (sync E totals) a

  -- Service.Reserve keeps the counters of every sale in step with the rows, on every branch of a
  -- run without network faults.
  pub reserve-InSync :
      (svc : Service) (user sale item : ℕ) (key : Text) (id now : ℕ) (w : World E)
      → InSync E totals w
      → InSync E totals (reserve E svc user sale item key id now w).1
  unfolding reserve
  reserve-InSync svc user sale item key id now w h =
      (bind-Keeps (sync E totals) (replay E sale key) (unless_replayed E (reserve_new E svc key r))
          (quiet-sync E totals _ (replay-Quiet E sale key))
          (λ o.
            unless_replayed-Keeps (reserve_new E svc key r) o
              (record { holds = λ w. reserve_new-InSync E totals svc key r w refl }))).holds
        w h
    where
      r : Reservation
      r = new_reservation E svc user sale item id now

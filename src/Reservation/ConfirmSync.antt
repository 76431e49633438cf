-- ===== src/Reservation/ConfirmSync.antt =====
-- Service.Confirm against the counters: with the order accepted the two stay in step; with the order
-- refused by the table, the counters are left wrong.
use flash_sale.Common.{
  ℕ, ◌+◌, ◌-◌, ◌≡◌, refl, ap, ◌∙◌, some, none, [], ◌∷◌, List, Text, arith, true, false,
}
use flash_sale.Common.Int.{pos, ◌-ℤ◌, int_laws}
use flash_sale.Platform.{Platform}
use flash_sale.Models.{ReservationStatus, Order}
use flash_sale.Database.{
  Tables, ReservationRow, find_reservation, is_reserved, update_row, with_reservations,
  set_confirmed, insert_order, may_insert_order,
}
use flash_sale.Database.Rows.{Leaves, find-id}
use flash_sale.Effects.{World, ok, err, Error, wrap, redis_call, pure}
use flash_sale.Effects.Steps.{bind-ok, wrap-ok, then-ok}
use flash_sale.Effects.Calm.{redis_call_calm}
use flash_sale.Redis.Keys.{available_key, reserved_key}
use flash_sale.Redis.Apart.{reserved_key-ne-available_key}
use flash_sale.Redis.Counters.{counter}
use flash_sale.Redis.Stock.{release_returns}
use flash_sale.Redis.Counts.{at_sale, at_self, recount, available_at, reserved_at}
use flash_sale.Redis.Moves.{confirm-AllCounts}
use flash_sale.Redis.Client
use flash_sale.Redis.ClientCalm.{confirm_calm, after_confirm, after_release, release_script}
use flash_sale.Reservation.Confirmation.{confirm_rows, settle_confirm, confirm_reserved, new_order}
use flash_sale.Reservation.Sync.{InSync, reserved_in, sold_in}
use flash_sale.Reservation.Release.{leaves, counted, at_sale_flip}
use flash_sale.Reservation.Confirm.{
  confirmed_row, confirm_entry, found-update, confirm_rows_done, confirm_rows_refused,
}

-- Whether an order may be inserted does not depend on the status of a row.
may_insert-update :
    (now id : ℕ) (o : Order) (t : Tables) (rs : List ReservationRow)
    → update_row (confirmed_row now) id t.reservations ≡ some rs
    → may_insert_order o (record t { reservations = rs }) ≡ may_insert_order o t
may_insert-update now id o t rs e = rw (found-update now id o.reservation_id t.reservations rs e)

insert_order-some :
    (o : Order) (t : Tables)
    → may_insert_order o t ≡ true
    → insert_order o t ≡ some (record t { orders = o ∷ t.orders })
unfolding insert_order
insert_order-some o t h = rw h

insert_order-none :
    (o : Order) (t : Tables) → may_insert_order o t ≡ false → insert_order o t ≡ none
unfolding insert_order
insert_order-none o t h = rw h

module _ (E : Platform) (totals : ℕ → ℕ) (w : World E) (id : ℕ) (row : ReservationRow)
    (h : InSync E totals w) (found : find_reservation id w.db.reservations ≡ some row)
    (is_res : is_reserved row.status ≡ true) (key : Text) (order_id now : ℕ) where
  abbrev pub order : Order
  order = new_order E row.reservation key order_id now

  marked_rows :
      (rs : List ReservationRow) × (update_row (confirmed_row now) id w.db.reservations ≡ some rs)
      × Leaves row w.db.reservations rs
  marked_rows = leaves E totals w id row h found is_res (confirmed_row now) refl refl

  set_confirmed-some :
      (rs : List ReservationRow)
      → update_row (confirmed_row now) id w.db.reservations ≡ some rs
      → set_confirmed ReservationStatus.confirmed now row.id w.db
        ≡ some (record w.db { reservations = rs })
  unfolding set_confirmed
  set_confirmed-some rs u =
      ap (λ i. set_confirmed ReservationStatus.confirmed now i w.db)
        (find-id id w.db.reservations row found)
      ∙ ap (with_reservations w.db) u

  taken : Client.confirm E row.sale_id w ≡ (ok (pos 1), after_confirm E w row.sale_id)
  taken =
      confirm_calm E totals (reserved_in w.db) (sold_in w.db) w row.sale_id h.calm h.counts
        (counted E totals w id row h found is_res)

  to_rows :
      confirm_reserved E row.reservation order now w
      ≡ confirm_rows E row.reservation order now (after_confirm E w row.sale_id)
  unfolding confirm_reserved
  to_rows =
      bind-ok (wrap Error.redis_confirm_failed (Client.confirm E row.sale_id))
        (settle_confirm E row.reservation order now)
        (wrap-ok (Client.confirm E row.sale_id) Error.redis_confirm_failed taken)

  pub one_sold :
      (b : ℕ) (rest : Tables)
      → sold_in rest b + at_sale row.sale_id b
        ≡ sold_in (record rest { orders = order ∷ rest.orders }) b
  one_sold b rest = ground arith

  abbrev pub sold_tables : List ReservationRow → Tables
  sold_tables rs = record w.db {
    reservations = rs;
    orders = order ∷ w.db.orders;
    audit_log = confirm_entry E row.reservation order now ∷ w.db.audit_log;
  }

  -- With the order accepted, all of the transaction is done.
  pub confirm_reserved_done :
      may_insert_order order w.db ≡ true
      → (rs : List ReservationRow) × (update_row (confirmed_row now) id w.db.reservations ≡ some rs)
        × Leaves row w.db.reservations rs
        × (confirm_reserved E row.reservation order now w ≡ (
          ok order,
          record (after_confirm E w row.sale_id) { db = sold_tables rs; faults = [] },
        ))
  confirm_reserved_done may =
      let (rs, u, l) = marked_rows in
      let t = record w.db { reservations = rs } in
      let inserted = insert_order-some order t (may_insert-update now id order w.db rs u ∙ may) in
      (
        rs,
        u,
        l,
        to_rows
            ∙ confirm_rows_done E row.reservation order now (after_confirm E w row.sale_id) t
                (record t { orders = order ∷ t.orders }) refl (set_confirmed-some rs u) inserted,
      )

  pub confirm_reserved-InSync :
      may_insert_order order w.db ≡ true
      → InSync E totals (confirm_reserved E row.reservation order now w).1
  confirm_reserved-InSync may =
      let (rs, u, l, e) = confirm_reserved_done may in
      let counts =
        (confirm-AllCounts E totals (reserved_in w.db) (sold_in w.db) w.redis row.sale_id h.counts
          (counted E totals w id row h found is_res)).1 in
      rw e (record {
        calm = refl;
        rows_valid = l.still_valid;
        counts = λ b.
            recount E (omega (arith, l.one_less b, at_sale_flip row.sale_id b)) (one_sold b w.db)
              (counts b);
      })

  abbrev pub after_failure : World E
  after_failure = after_release E (after_confirm E w row.sale_id) row.sale_id

  -- The compensation runs on counters that `confirm` has moved already.
  pub compensated :
      (Client.release E row.sale_id (after_confirm E w row.sale_id) ≡ (ok tt, after_failure))
      × (counter E after_failure.redis (available_key E row.sale_id)
          ≡ some (
              pos (
                totals row.sale_id
                - (reserved_in w.db row.sale_id + sold_in w.db row.sale_id)
                + 1)))
      × (counter E after_failure.redis (reserved_key E row.sale_id)
          ≡ some (pos (reserved_in w.db row.sale_id) -ℤ pos 2))
  unfolding Client.release
  compensated =
      let sale = row.sale_id in
      let q = reserved_in w.db sale in
      let o = sold_in w.db sale in
      let some_left = counted E totals w id row h found is_res in
      let w1 = after_confirm E w sale in
      let c =
        (confirm-AllCounts E totals (reserved_in w.db) (sold_in w.db) w.redis sale h.counts
            some_left).1
          sale in
      let ha : counter E w1.redis (available_key E sale) ≡ some (pos (totals sale - (q + o))) =
        c.available_held ∙ ap some (ap pos (omega (arith, at_self sale, c.within))) in
      let hr : counter E w1.redis (reserved_key E sale) ≡ some (pos (q - 1)) =
        c.reserved_held ∙ ap some (ap pos (omega (arith, at_self sale))) in
      let (v, e) =
        release_returns E (available_key E sale) (reserved_key E sale) w1.redis
          (pos (totals sale - (q + o))) (pos (q - 1)) (reserved_key-ne-available_key E sale sale) ha
          hr (omega (int_laws, c.small)) (omega (int_laws, c.small)) in
      (
        then-ok (redis_call (release_script E sale)) (pure tt)
            (redis_call_calm w1 refl (release_script E sale) v),
        available_at E w1.redis after_failure.redis sale _ _ e ∙ ap some (omega int_laws),
        reserved_at E w1.redis after_failure.redis sale _ _ e
            ∙ ap some (omega (int_laws, some_left)),
      )

  pub confirm_reserved_refused :
      may_insert_order order w.db ≡ false
      → confirm_reserved E row.reservation order now w
        ≡ (err Error.create_order_failed, after_failure)
  confirm_reserved_refused may_not =
      let (rs, u, l) = marked_rows in
      let t = record w.db { reservations = rs } in
      to_rows
      ∙ confirm_rows_refused E row.reservation order now (after_confirm E w row.sale_id)
          after_failure t refl (set_confirmed-some rs u)
          (insert_order-none order t (may_insert-update now id order w.db rs u ∙ may_not))
          compensated.0

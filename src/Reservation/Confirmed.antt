-- ===== src/Reservation/Confirmed.antt =====
-- Service.Confirm as a whole, without network faults.
use flash_sale.Common.{
  ℕ, ◌+◌, ◌-◌, ◌≡◌, refl, sym, ap, subst, ◌∙◌, Option, some, none, [], Text, true, false,
  Option-cases, Bool-cases, inl, inr,
}
use flash_sale.Common.Int.{pos, ◌-ℤ◌}
use flash_sale.Platform.{Platform}
use flash_sale.Models.{Order}
use flash_sale.Database.{Tables, ReservationRow, find_reservation, is_reserved, may_insert_order}
use flash_sale.Effects.{World, ok, err, Error, wrap, db_query}
use flash_sale.Effects.Steps.{bind-ok, bind-err, wrap-ok, wrap-err}
use flash_sale.Effects.Calm.{db_query_found, db_query_missing}
use flash_sale.Redis.Keys.{available_key, reserved_key}
use flash_sale.Redis.Counters.{counter}
use flash_sale.Reservation.{unless_replayed}
use flash_sale.Reservation.Confirmation.{
  confirm_row, confirm_reserved, confirm_new, confirm, replay_order, new_order,
}
use flash_sale.Reservation.Sync.{InSync, reserved_in, sold_in}
use flash_sale.Reservation.Confirm.{replay_order_calm}
use flash_sale.Reservation.ConfirmSync.{
  confirm_reserved-InSync, confirm_reserved_refused, compensated,
}

module _ (E : Platform) (id : ℕ) (key : Text) (order_id now : ℕ) (w : World E) where
  -- From the whole of Confirm to the row that it finds.
  pub to_row :
      (row : ReservationRow)
      → w.faults ≡ []
      → (replay_order E key w).0 ≡ ok none
      → find_reservation id w.db.reservations ≡ some row
      → confirm E id key order_id now w
        ≡ confirm_row E key order_id now row (record w { faults = [] })
  unfolding confirm confirm_new
  to_row row calm fresh found =
      let (o, e) = replay_order_calm E key w calm in
      let none_found : o ≡ none = cc in
      let query = λ (t : Tables). find_reservation id t.reservations in
      let w0 = record w { faults = [] } in
      bind-ok (replay_order E key) (unless_replayed E (confirm_new E id key order_id now))
        (e ∙ ap (λ x. (ok x, w0)) none_found)
      ∙ bind-ok (wrap Error.reservation_not_found (db_query query)) (confirm_row E key order_id now)
          (wrap-ok (db_query query) Error.reservation_not_found
            (db_query_found w0 refl query found))

pub reserved_row :
    (E : Platform) (key : Text) (order_id now : ℕ) (row : ReservationRow) (w : World E)
    → is_reserved row.status ≡ true
    → confirm_row E key order_id now row w
      ≡ confirm_reserved E row.reservation (new_order E row.reservation key order_id now) now w
reserved_row E key order_id now row w h = rw h

-- The order that Confirm would insert for a row meets the constraints of the orders table.
abbrev pub Accepts : (E : Platform) → Text → ℕ → ℕ → Tables → ReservationRow → Type 0
Accepts E key order_id now t row =
    may_insert_order (new_order E row.reservation key order_id now) t ≡ true

module _ (E : Platform) (totals : ℕ → ℕ) (id : ℕ) (key : Text) (order_id now : ℕ) where
  confirm_row-InSync :
      (w : World E) (row : ReservationRow)
      → InSync E totals w
      → find_reservation id w.db.reservations ≡ some row
      → Accepts E key order_id now w.db row
      → InSync E totals (confirm_row E key order_id now row w).1
  confirm_row-InSync w row h found accepts = elim (Bool-cases (is_reserved row.status)) [
    | inl is_res ↦
        rw is_res
          (confirm_reserved-InSync E totals w id row h found is_res key order_id now accepts)
    | inr not_res ↦ rw not_res h
  ]

  confirm_new-InSync :
      (w : World E)
      → InSync E totals w
      → ((row : ReservationRow)
          → find_reservation id w.db.reservations ≡ some row
          → Accepts E key order_id now w.db row)
      → InSync E totals (confirm_new E id key order_id now w).1
  unfolding confirm_new
  confirm_new-InSync w h accepts =
      let query = λ (t : Tables). find_reservation id t.reservations in
      let w0 = record w { faults = [] } in
      let h0 : InSync E totals w0 = record {
        calm = refl;
        rows_valid = h.rows_valid;
        counts = h.counts;
      } in
      elim (Option-cases (query w.db)) [
        | inl missing ↦
            subst (λ p. InSync E totals p.1)
              (sym (
                bind-err (wrap Error.reservation_not_found (db_query query))
                  (confirm_row E key order_id now)
                  (wrap-err (db_query query) Error.reservation_not_found
                    (db_query_missing w h.calm query missing))))
              h0
        | inr (row, found) ↦
            subst (λ p. InSync E totals p.1)
              (sym (
                bind-ok (wrap Error.reservation_not_found (db_query query))
                  (confirm_row E key order_id now)
                  (wrap-ok (db_query query) Error.reservation_not_found
                    (db_query_found w h.calm query found))))
              (confirm_row-InSync w0 row h0 found (accepts row found))
      ]

  pub confirm-InSync :
      (w : World E)
      → InSync E totals w
      → ((row : ReservationRow)
          → find_reservation id w.db.reservations ≡ some row
          → Accepts E key order_id now w.db row)
      → InSync E totals (confirm E id key order_id now w).1
  unfolding confirm
  confirm-InSync w h accepts =
      let (o, e) = replay_order_calm E key w h.calm in
      let w0 = record w { faults = [] } in
      let h0 : InSync E totals w0 = record {
        calm = refl;
        rows_valid = h.rows_valid;
        counts = h.counts;
      } in
      subst (λ p. InSync E totals p.1)
        (sym
          (bind-ok (replay_order E key) (unless_replayed E (confirm_new E id key order_id now)) e))
        (replayed o w0 h0 (confirm_new-InSync w0 h0 accepts))
    where
      replayed :
          (o : Option Order) (w0 : World E)
          → InSync E totals w0
          → InSync E totals (confirm_new E id key order_id now w0).1
          → InSync E totals (unless_replayed E (confirm_new E id key order_id now) o w0).1
      replayed none w0 h0 h1 = h1
      replayed (some o) w0 h0 h1 = h0

  -- When the orders table refuses the order of a reserved row that is being confirmed, from a
  -- state in step and without network faults: Confirm fails, the rows are as they were, and the
  -- sale has one unit too many available and two too few reserved.
  pub confirm_refused_drifts :
      (w : World E) (row : ReservationRow)
      → InSync E totals w
      → (replay_order E key w).0 ≡ ok none
      → find_reservation id w.db.reservations ≡ some row
      → is_reserved row.status ≡ true
      → may_insert_order (new_order E row.reservation key order_id now) w.db ≡ false
      → let (r, w') = confirm E id key order_id now w in
        let sale = row.sale_id in
        (r ≡ err Error.create_order_failed)
        × (w'.db ≡ w.db)
        × (counter E w'.redis (available_key E sale)
            ≡ some (pos (totals sale - (reserved_in w.db sale + sold_in w.db sale) + 1)))
        × (counter E w'.redis (reserved_key E sale) ≡ some (pos (reserved_in w.db sale) -ℤ pos 2))
  confirm_refused_drifts w row h fresh found is_res may_not =
      let w0 = record w { faults = [] } in
      let h0 : InSync E totals w0 = record {
        calm = refl;
        rows_valid = h.rows_valid;
        counts = h.counts;
      } in
      let (back, available, reserved) =
        compensated E totals w0 id row h0 found is_res key order_id now in
      let e =
        to_row E id key order_id now w row h.calm fresh found
        ∙ reserved_row E key order_id now row w0 is_res
        ∙ confirm_reserved_refused E totals w0 id row h0 found is_res key order_id now may_not in
      rw e (refl, refl, available, reserved)

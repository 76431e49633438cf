-- ===== src/Reservation/Sold.antt =====
-- What a confirmation does where nothing is in its way.
use flash_sale.Common.{ℕ, ◌+◌, ◌≡◌, refl, sym, ◌∙◌, some, none, [], ◌∷◌, Text, true, arith}
use flash_sale.Platform.{Platform}
use flash_sale.Database.{ReservationRow, find_reservation, is_reserved}
use flash_sale.Database.Rows.{find-id, find-update}
use flash_sale.Effects.{World, ok}
use flash_sale.Redis.Counts.{at_sale}
use flash_sale.Reservation.Confirmation.{confirm, replay_order, new_order}
use flash_sale.Reservation.Sync.{InSync, reserved_in, sold_in}
use flash_sale.Reservation.Release.{at_sale_flip}
use flash_sale.Reservation.Confirm.{confirmed_row}
use flash_sale.Reservation.ConfirmSync.{confirm_reserved_done, one_sold}
use flash_sale.Reservation.Confirmed.{Accepts, to_row, reserved_row}

module _ (E : Platform) (totals : ℕ → ℕ) (id : ℕ) (key : Text) (order_id now : ℕ) where
  -- From a state in step and without network faults, with a key under which there is no order yet,
  -- Confirm of a reserved row whose order the table takes returns that order and has inserted it;
  -- the row is confirmed at the time of the call, and of every sale but the row's as many rows are
  -- reserved and as many orders count as before, of the row's one less and one more.
  pub confirm_sells :
      (w : World E) (row : ReservationRow)
      → InSync E totals w
      → (replay_order E key w).0 ≡ ok none
      → find_reservation id w.db.reservations ≡ some row
      → is_reserved row.status ≡ true
      → Accepts E key order_id now w.db row
      → let order = new_order E row.reservation key order_id now in
        let (r, w') = confirm E id key order_id now w in
        (r ≡ ok order)
        × (w'.db.orders ≡ order ∷ w.db.orders)
        × (find_reservation id w'.db.reservations ≡ some (confirmed_row now row))
        × ((b : ℕ) → reserved_in w'.db b + at_sale row.sale_id b ≡ reserved_in w.db b)
        × ((b : ℕ) → sold_in w'.db b ≡ sold_in w.db b + at_sale row.sale_id b)
  confirm_sells w row h fresh found is_res accepts =
      let w0 : World E = record w { faults = [] } in
      let h0 : InSync E totals w0 = record {
        calm = refl;
        rows_valid = h.rows_valid;
        counts = h.counts;
      } in
      let (rs, u, l, done) =
        confirm_reserved_done E totals w0 id row h0 found is_res key order_id now accepts in
      let e =
        to_row E id key order_id now w row h.calm fresh found
        ∙ reserved_row E key order_id now row w0 is_res
        ∙ done in
      rw e (
        refl,
        refl,
        find-update (confirmed_row now) id w.db.reservations rs row found
            (find-id id w.db.reservations row found) u,
        λ b. omega (arith, l.one_less b, at_sale_flip row.sale_id b),
        λ b. sym (one_sold E totals w0 id row h0 found is_res key order_id now b w0.db),
      )

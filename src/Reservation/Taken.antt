-- ===== src/Reservation/Taken.antt =====
-- A unit of stock that Redis counts as reserved and that has no row yet: the row is inserted, or the
-- unit is given back. Reserve and the promotion from the waitlist share this.
use flash_sale.Common.{ℕ, ◌+◌, ◌≤◌, ◌≡◌, refl, subst, [], ◌∷◌, some, arith, true}
use flash_sale.Platform.{Platform}
use flash_sale.Database.{Tables, ReservationRow, insert_reservation, is_reserved}
use flash_sale.Database.Rows.{insert_reservation-some, reserved_rows, AllValid}
use flash_sale.Effects.{World, err, Error, attempt, fail}
use flash_sale.Effects.Steps.{then-ok, attempt-ok}
use flash_sale.Redis.Counts.{AllCounts, at_sale, at_self, recount}
use flash_sale.Redis.Moves.{release-AllCounts}
use flash_sale.Redis.Client
use flash_sale.Redis.ClientCalm.{release_calm, after_release}
use flash_sale.Reservation.{give_back}
use flash_sale.Reservation.Sync.{InSync, reserved_in, sold_in}

module _ (E : Platform) (totals : ℕ → ℕ) (sale : ℕ) where
  pub record Taken (w : World E) : Type 0 where
    pub calm : w.faults ≡ []
    pub rows_valid : AllValid w.db.reservations
    pub counts :
        AllCounts E totals (λ b. reserved_in w.db b + at_sale sale b) (sold_in w.db) w.redis

  pub give_back-InSync :
      {A : Type 0} (w : World E) (error : Error)
      → Taken w
      → (give_back E {A = A} error sale w ≡ (err error, after_release E w sale))
        × InSync E totals (after_release E w sale)
  give_back-InSync {A} w error h =
      let q = λ (b : ℕ). reserved_in w.db b + at_sale sale b in
      let one : 1 ≤ reserved_in w.db sale + at_sale sale sale = omega (arith, at_self sale) in
      let kept = release-AllCounts E totals q (sold_in w.db) w.redis sale h.counts one in
      (
        then-ok (attempt (Client.release E sale)) (fail {A = A} error) (
            attempt-ok (Client.release E sale)
              (release_calm E totals q (sold_in w.db) w sale h.calm h.counts one)),
        record {
          calm = refl;
          rows_valid = h.rows_valid;
          counts = λ b. recount E (omega arith) refl (kept.1 b);
        },
      )

  one_more :
      (row : ReservationRow) (t : Tables) (b : ℕ)
      → row.sale_id ≡ sale
      → is_reserved row.status ≡ true
      → reserved_in t b + at_sale sale b ≡ reserved_rows b (row ∷ t.reservations)
  one_more row t b same_sale st = ground arith

  pub inserted-InSync :
      (w : World E) (row : ReservationRow) (t : Tables)
      → Taken w
      → row.sale_id ≡ sale
      → is_reserved row.status ≡ true
      → insert_reservation row w.db ≡ some t
      → InSync E totals (record w { db = t; faults = [] })
  inserted-InSync w row t h same_sale st inserted =
      let (written, row_valid) = insert_reservation-some row w.db inserted in
      subst (λ u. InSync E totals (record w { db = u; faults = [] })) written
        (record {
          calm = refl;
          rows_valid = (row_valid, h.rows_valid);
          counts = λ b. recount E (one_more row w.db b same_sale st) refl (h.counts b);
        })

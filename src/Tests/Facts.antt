-- ===== src/Tests/Facts.antt =====
-- What the orders table says of a confirmation of the first reservation.
use flash_sale.Common.{
  ℕ, zero, suc, ◌≡◌, refl, sym, ap, some, none, codes, true, false, Text, [], ◌∷◌,
}
use flash_sale.Database.{find_reservation, ReservationRow, may_insert_order}
use flash_sale.Effects
use flash_sale.Effects.{ok}
use flash_sale.Reservation.Confirmation.{new_order, replay_order}
use flash_sale.Reservation.Confirmation
use flash_sale.Reference.{memory}
use flash_sale.Tests.Scene.{first_row}
use flash_sale.Tests.Drift.{right}

-- A key that is too long for its column.
abbrev copies : ℕ → Text
copies zero = []
copies (suc n) = 97 ∷ copies n

abbrev pub long_key : Text
long_key = copies 256

pub long_key-refused :
    may_insert_order (new_order memory first_row.reservation long_key 30 40) right.db ≡ false
long_key-refused = refl

pub long_key-fresh : (replay_order memory long_key right).0 ≡ ok none
unfolding Confirmation.replay_order Confirmation.order_by_key Effects.db_query
long_key-fresh = refl

pub confirmation_accepted :
    (row : ReservationRow)
    → find_reservation 20 right.db.reservations ≡ some row
    → may_insert_order (new_order memory row.reservation (codes "c1") 30 40) right.db ≡ true
confirmation_accepted row e =
    ap (λ r. may_insert_order (new_order memory r.reservation (codes "c1") 30 40) right.db)
      (only_row (sym e))
  where
    only_row : some row ≡ some first_row → row ≡ first_row
    only_row e = cc

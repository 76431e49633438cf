-- ===== src/Tests/Scene.antt =====
-- A world with two users and nothing else, the sale that CreateSale opens in it, and the first
-- reservation of that sale.
use flash_sale.Common.{true, false, ℕ, refl, none, [], ◌∷◌, codes, arith, if◌then◌else◌, ◌==◌}
use flash_sale.Common.Int.{pos}
use flash_sale.Models.{ReservationStatus}
use flash_sale.Database.{Tables, ReservationRow, insert_sale}
use flash_sale.Effects.{World}
use flash_sale.Reference.{memory, empty}
use flash_sale.Reservation.{Service, reserve}
use flash_sale.Reservation.Sync.{InSync}
use flash_sale.Reservation.Reserve.{reserve-InSync}
use flash_sale.Inventory.{SaleInput, create_sale, new_sale}
use flash_sale.Inventory.Create.{create_sale-InSync}

abbrev pub service : Service
service = record { reservation_ttl = 300; has_publisher = true }

abbrev pub input : SaleInput
input = record { name = codes "Launch"; total_stock = pos 2; start_time = 10; end_time = 90 }

abbrev pub blank : Tables
blank = record {
  users = 1 ∷ 2 ∷ [];
  sales = [];
  sale_items = record { id = 4; sale_id = 7 } ∷ [];
  reservations = [];
  orders = [];
  audit_log = [];
}

abbrev pub start : World memory
start = record { redis = empty; db = blank; sent = []; faults = [] }

abbrev pub no_totals : ℕ → ℕ
no_totals b = 0

pub start-InSync : InSync memory no_totals start
start-InSync = record {
  calm = refl;
  rows_valid = tt;
  counts = λ b. record {
    small = omega arith;
    within = omega arith;
    available_held = refl;
    reserved_held = refl;
  };
}

abbrev pub totals : ℕ → ℕ
totals b = if b == 7 then 2 else 0

abbrev pub listed : Tables
listed = record blank { sales = new_sale input 7 5 ∷ [] }

abbrev pub opened : World memory
unfolding create_sale
opened = (create_sale memory input 7 5 start).1

pub opened-InSync : InSync memory totals opened
unfolding insert_sale create_sale
opened-InSync =
    create_sale-InSync memory no_totals input 7 5 2 listed start start-InSync refl (omega arith)
      refl refl refl

abbrev pub held : World memory
unfolding reserve
held = (reserve memory service 1 7 4 (codes "k1") 20 30 opened).1

pub held-InSync : InSync memory totals held
unfolding reserve
held-InSync = reserve-InSync memory totals service 1 7 4 (codes "k1") 20 30 opened opened-InSync

abbrev pub first_row : ReservationRow
first_row = record {
  reservation = record {
    id = 20;
    user_id = 1;
    sale_id = 7;
    item_id = 4;
    status = ReservationStatus.reserved;
    reserved_at = 30;
    confirmed_at = none;
    expires_at = 330;
  };
  promoted_from_waitlist = false;
}

-- ===== src/Tests/Services.antt =====
-- The theorems on the three services, each at a run of the scene.
use flash_sale.Common.{◌+◌, ◌-◌, ◌≡◌, refl, some, codes, arith, if◌then◌else◌, ◌==◌}
use flash_sale.Common.Int.{pos, ◌-ℤ◌}
use flash_sale.Effects.{Error, err, ok}
use flash_sale.Database.{insert_sale}
use flash_sale.Reference.{memory}
use flash_sale.Redis.Keys.{available_key, reserved_key}
use flash_sale.Redis.Counters.{counter}
use flash_sale.Reservation.{reserve, release}
use flash_sale.Reservation.Confirmation.{confirm}
use flash_sale.Reservation.Sync.{InSync, reserved_in, sold_in}
use flash_sale.Reservation.Reserve.{reserve-InSync}
use flash_sale.Reservation.Release.{release-InSync}
use flash_sale.Reservation.Confirmed.{confirm_refused_drifts}
use flash_sale.Inventory.{create_sale, get_sale, new_sale}
use flash_sale.Inventory.Stats.{get_sale-create_sale}
use flash_sale.Inventory.Create.{create_sale-InSync}
use flash_sale.Tests.Scene.{
  service, input, start, start-InSync, no_totals, listed, totals, held, held-InSync, first_row,
}
use flash_sale.Tests.Drift.{right, right-InSync}
use flash_sale.Tests.Facts.{long_key-refused, long_key-fresh, long_key}

create_sale-InSync_example :
    InSync memory (λ b. if b == 7 then 2 else no_totals b) (create_sale memory input 7 5 start).1
unfolding insert_sale
create_sale-InSync_example =
    create_sale-InSync memory no_totals input 7 5 2 listed start start-InSync refl (omega arith)
      refl refl refl

reserve-InSync_example :
    InSync memory totals (reserve memory service 2 7 4 (codes "k2") 21 31 held).1
reserve-InSync_example =
    reserve-InSync memory totals service 2 7 4 (codes "k2") 21 31 held held-InSync

release-InSync_example : InSync memory totals (release memory service 20 held).1
release-InSync_example = release-InSync memory totals service 20 held held-InSync

confirm_refused_drifts_example :
    let (r, w') = confirm memory 20 long_key 30 40 right in
    (r ≡ err Error.create_order_failed)
    × (w'.db ≡ right.db)
    × (counter memory w'.redis (available_key memory 7)
        ≡ some (pos (totals 7 - (reserved_in right.db 7 + sold_in right.db 7) + 1)))
    × (counter memory w'.redis (reserved_key memory 7)
        ≡ some (pos (reserved_in right.db 7) -ℤ pos 2))
confirm_refused_drifts_example =
    confirm_refused_drifts memory totals 20 long_key 30 40 right first_row right-InSync
      long_key-fresh refl refl long_key-refused

get_sale-create_sale_example :
    (get_sale memory 7 (create_sale memory input 7 5 start).1).0
    ≡ ok (new_sale input 7 5, record { available = pos 2; reserved = pos 0; total = pos 2 })
unfolding insert_sale
get_sale-create_sale_example = get_sale-create_sale memory input 7 5 listed start refl refl

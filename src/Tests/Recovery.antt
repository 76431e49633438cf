-- ===== src/Tests/Recovery.antt =====
-- The theorems on expiry and on the reconcilers, each at a run.
use flash_sale.Common.{ℕ, ◌≡◌, refl, some, true, [], ◌∷◌, false}
use flash_sale.Common.Int.{pos}
use flash_sale.Effects.{World, Outcome, ok}
use flash_sale.Reference.{memory}
use flash_sale.Redis.Keys.{ttl_key}
use flash_sale.Reservation.Sync.{InSync}
use flash_sale.Expiry.{
  handle_expired_reservation, promote_next_user, is_reservation_key, expired_id,
}
use flash_sale.Expiry.Keys.{expired_id-ttl_key}
use flash_sale.Expiry.Promotion.{promote_next_user-InSync}
use flash_sale.Expiry.Sync.{handle_expired_reservation-InSync}
use flash_sale.Reconcile.Worker.{reconcile_all_sales, reconcile_single_sale}
use flash_sale.Reconcile.Startup.{reconcile_on_startup, Progress}
use flash_sale.Reconcile.Idle.{reconcile_single_sale-InSync}
use flash_sale.Reconcile.Cycle.{reconcile_all_sales-InSync}
use flash_sale.Reconcile.Restart.{reconcile_on_startup-InSync}
use flash_sale.Tests.Scene.{service, totals}
use flash_sale.Tests.Drift.{
  lost, lost-Totals, lost-Restorable, lost-covered, right, right-InSync, right-Waitlists,
}

handle_expired_reservation-InSync_example :
    InSync memory totals
      (handle_expired_reservation memory service (ttl_key memory 20) 21 5 340 right).1
handle_expired_reservation-InSync_example =
    handle_expired_reservation-InSync memory totals service 21 5 340 (ttl_key memory 20) right
      right-InSync right-Waitlists

promote_next_user-InSync_example :
    InSync memory totals (promote_next_user memory service 7 21 5 340 right).1
promote_next_user-InSync_example =
    promote_next_user-InSync memory service totals 7 21 5 340 right right-InSync right-Waitlists

reconcile_all_sales-InSync_example :
    (k : ℕ) × (w' : World memory) × (reconcile_all_sales memory 100 lost ≡ (ok k, w'))
    × InSync memory totals w'
reconcile_all_sales-InSync_example =
    reconcile_all_sales-InSync memory totals 100 lost lost-Totals lost-Restorable lost-covered

reconcile_on_startup-InSync_example :
    (p : Progress) × (w' : World memory) × (reconcile_on_startup memory 100 lost ≡ (ok p, w'))
    × InSync memory totals w'
reconcile_on_startup-InSync_example =
    reconcile_on_startup-InSync memory totals 100 lost lost-Totals lost-Restorable lost-covered

abbrev unreliable : World memory
unreliable = record lost { faults = Outcome.done ∷ Outcome.done ∷ Outcome.refused ∷ [] }

expired_id-ttl_key_example :
    (is_reservation_key (ttl_key memory 20) ≡ true)
    × (expired_id memory (ttl_key memory 20) ≡ some 20)
expired_id-ttl_key_example = expired_id-ttl_key memory 20

reconcile_single_sale-InSync_example :
    reconcile_single_sale memory 7 (pos (totals 7)) 100 right ≡ (ok false, right)
reconcile_single_sale-InSync_example =
    reconcile_single_sale-InSync memory totals 7 100 right right-InSync refl

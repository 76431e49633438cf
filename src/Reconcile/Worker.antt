-- ===== src/Reconcile/Worker.antt =====
-- internal/worker/reconciler.go: one cycle of the periodic reconciliation. The numbers of the drift
-- are the audit entry's payload, which is left out.
use flash_sale.Common.{ℕ, ◌+◌, Bool, true, false, Option, some, List, [], ◌∷◌, if◌then◌else◌}
use flash_sale.Common.Int.{ℤ}
use flash_sale.Platform.{Platform}
use flash_sale.Models.{AuditEntry, EntityType, EventType}
use flash_sale.Database.{insert_audit}
use flash_sale.Effects.{Action, Error, pure, wrap, attempt, ◌>>=◌, ◌>>◌, db_exec, db_query}
use flash_sale.Redis.Keys.{available_key, reserved_key}
use flash_sale.Reconcile.{
  Tally, active_sales, expected, count_rows, read_counter, set_both, drifted,
}

abbrev pub correction : EventType → ℕ → AuditEntry
correction event sale = record {
  entity_type = EntityType.sale;
  entity_id = sale;
  event_type = event;
  payload = [];
}

module _ (E : Platform) where
  abbrev pub log_correction : EventType → ℕ → Action E (Unit {0})
  log_correction event sale = do attempt (db_exec (insert_audit (correction event sale))); pure tt

  unfoldable pub correct_drift : ℕ → ℤ → Tally → Action E Bool
  correct_drift sale total c = do
    set_both E sale (expected total c) c.reserved
    log_correction EventType.reconciliation_correction sale
    pure true

  unfoldable pub reconcile_single_sale : ℕ → ℤ → ℕ → Action E Bool
  reconcile_single_sale sale total now = do
    c ← count_rows E sale now
    available ← read_counter E (available_key E sale)
    reserved ← read_counter E (reserved_key E sale)
    if drifted available reserved total c then correct_drift sale total c else pure false

  abbrev pub add_correction : Option Bool → ℕ → ℕ
  add_correction (some true) n = n + 1
  add_correction _ n = n

  -- The loop over the rows; the result counts the corrections.
  unfoldable pub each_sale : List (ℕ × ℤ) → ℕ → ℕ → Action E ℕ
  each_sale [] now corrections = pure corrections
  each_sale ((sale, total) ∷ rest) now corrections = do
    corrected ← attempt (reconcile_single_sale sale total now)
    each_sale rest now (add_correction corrected corrections)

  unfoldable pub reconcile_all_sales : ℕ → Action E ℕ
  reconcile_all_sales now = do
    rows ← wrap Error.query_sales_failed (db_query (λ t. some (active_sales t.sales)))
    each_sale rows now 0

-- ===== src/Reconcile/Startup.antt =====
-- internal/recovery/reconcile_startup.go: the reconciliation when the server starts.
use flash_sale.Common.{ℕ, ◌+◌, Bool, true, false, Option, none, some, List, [], ◌∷◌, if◌then◌else◌}
use flash_sale.Common.Int.{ℤ}
use flash_sale.Platform.{Platform}
use flash_sale.Models.{EventType}
use flash_sale.Effects.{Action, Error, pure, wrap, attempt, ◌>>=◌, ◌>>◌, db_query}
use flash_sale.Redis.Keys.{available_key, reserved_key}
use flash_sale.Reconcile.{active_sales, expected, count_rows, read_counter, set_both, drifted}
use flash_sale.Reconcile.Worker.{log_correction}

pub record ReconciliationResult : Type 0 where
  pub sale_id : ℕ
  pub total_stock : ℤ
  pub reserved_count : ℕ
  pub confirmed_count : ℕ
  pub expected_available : ℤ
  pub redis_available_before : ℤ
  pub redis_reserved_before : ℤ
  pub corrected : Bool

-- How many sales were processed, and how many of them corrected.
pub record Progress : Type 0 where
  pub processed : ℕ
  pub corrections : ℕ

abbrev pub count_result : Option ReconciliationResult → Progress → Progress
count_result none p = p
count_result (some r) p = record {
  processed = p.processed + 1;
  corrections = if r.corrected then p.corrections + 1 else p.corrections;
}

module _ (E : Platform) where
  abbrev pub correct_sale : ReconciliationResult → Action E ReconciliationResult
  correct_sale r = do
    set_both E r.sale_id r.expected_available r.reserved_count
    pure (record r { corrected = true })

  unfoldable pub reconcile_sale : ℕ → ℤ → ℕ → Action E ReconciliationResult
  reconcile_sale sale total now = do
    c ← count_rows E sale now
    available ← read_counter E (available_key E sale)
    reserved ← read_counter E (reserved_key E sale)
    let result : ReconciliationResult = record {
      sale_id = sale;
      total_stock = total;
      reserved_count = c.reserved;
      confirmed_count = c.confirmed;
      expected_available = expected total c;
      redis_available_before = available;
      redis_reserved_before = reserved;
      corrected = false;
    }
    if drifted available reserved total c then correct_sale result else pure result

  abbrev pub log_result : ℕ → Option ReconciliationResult → Action E (Unit {0})
  log_result sale none = pure tt
  log_result sale (some r) =
      if r.corrected then log_correction E EventType.startup_reconciliation sale else pure tt

  unfoldable pub each_row : List (ℕ × ℤ) → ℕ → Progress → Action E Progress
  each_row [] now p = pure p
  each_row ((sale, total) ∷ rest) now p = do
    result ← attempt (reconcile_sale sale total now)
    log_result sale result
    each_row rest now (count_result result p)

  unfoldable pub reconcile_on_startup : ℕ → Action E Progress
  reconcile_on_startup now = do
    rows ← wrap Error.query_sales_failed (db_query (λ t. some (active_sales t.sales)))
    each_row rows now (record { processed = 0; corrections = 0 })

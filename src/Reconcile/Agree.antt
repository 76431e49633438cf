-- ===== src/Reconcile/Agree.antt =====
-- The two reconcilers do the same to a sale.
use flash_sale.Common.{ℕ, ◌≡◌, Bool, false, some, []}
use flash_sale.Common.Int.{ℤ}
use flash_sale.Platform.{Platform}
use flash_sale.Effects.{World, Result, ok, err, Action, ◌>>◌, pure, caught}
use flash_sale.Reservation.Quiet.{unlogged}
use flash_sale.Reconcile.{Tally}
use flash_sale.Reconcile.Report.{startup_result}
use flash_sale.Reconcile.Worker.{add_correction, each_sale}
use flash_sale.Reconcile.Startup.{
  ReconciliationResult, Progress, count_result, log_result, each_row,
}

module _ (E : Platform) where
  -- The same result, and the same world but for the audit log.
  pub record Alike {A : Type 0} (p q : Result A × World E) : Type 0 where
    pub same_result : p.0 ≡ q.0
    pub same_redis : p.1.redis ≡ q.1.redis
    pub same_tables : unlogged p.1.db ≡ unlogged q.1.db
    pub same_sent : p.1.sent ≡ q.1.sent
    pub same_faults : p.1.faults ≡ q.1.faults

  -- What the loop at startup does with a sale that could be reconciled.
  abbrev report : ℕ → ReconciliationResult → Action E Bool
  report sale r = do log_result E sale (some r); pure r.corrected

  module _ (sale : ℕ) (total : ℤ) (c : Tally) (available reserved : ℤ) where
    -- The result before a correction.
    abbrev fresh : ReconciliationResult
    fresh = startup_result E sale total c available reserved false

  -- The worker's result and the one at startup: both go on, with the same count of corrections, in the
  -- same world but for the audit log.
  pub record Agreed (p : Result ℕ × World E) (q : Result Progress × World E) : Type 0 where
    pub progress : Progress
    pub startup_goes_on : q.0 ≡ ok progress
    pub worker_goes_on : p.0 ≡ ok progress.corrections
    pub same_redis : p.1.redis ≡ q.1.redis
    pub same_tables : unlogged p.1.db ≡ unlogged q.1.db
    pub same_sent : p.1.sent ≡ q.1.sent
    pub same_faults : p.1.faults ≡ q.1.faults

  module _ (sale now : ℕ) (p : Progress) where
    abbrev worker_rest : Result Bool → World E → Result ℕ × World E
    worker_rest s u = elim (caught s) as (λ _. Result ℕ × World E) [
      | ok c ↦ each_sale E [] now (add_correction E c p.corrections) u
      | err e ↦ (err e, u)
    ]

    abbrev startup_rest : Result ReconciliationResult → World E → Result Progress × World E
    startup_rest r v = elim (caught r) as (λ _. Result Progress × World E) [
      | ok x ↦ (log_result E sale x >> each_row E [] now (count_result x p)) v
      | err e ↦ (err e, v)
    ]

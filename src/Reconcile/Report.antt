-- ===== src/Reconcile/Report.antt =====
-- One sale through the reconciliation at startup.
use flash_sale.Common.{
  ℕ, ◌≡◌, refl, ap, ◌∙◌, some, [], Bool, true, false, Bool-cases, inl, inr, if◌then◌else◌,
}
use flash_sale.Common.Int.{ℤ}
use flash_sale.Platform.{Platform}
use flash_sale.Models.{EventType}
use flash_sale.Effects.{World, ok, pure}
use flash_sale.Effects.Steps.{then-ok}
use flash_sale.Redis.Keys.{available_key, reserved_key}
use flash_sale.Redis.Counters.{counter}
use flash_sale.Reconcile.{Tally, tally, expected, set_both, drifted}
use flash_sale.Reconcile.Startup.{reconcile_sale, correct_sale, ReconciliationResult}
use flash_sale.Reconcile.Repair.{
  Repaired, synced_already, set_Repaired, log_calm, counted_and_read, in_step, set_both_calm,
}
use flash_sale.Reconcile.Startup.{log_result}

module _ (E : Platform) where
  abbrev pub startup_result : ℕ → ℤ → Tally → ℤ → ℤ → Bool → ReconciliationResult
  startup_result sale total c a r corrected = record {
    sale_id = sale;
    total_stock = total;
    reserved_count = c.reserved;
    confirmed_count = c.confirmed;
    expected_available = expected total c;
    redis_available_before = a;
    redis_reserved_before = r;
    corrected = corrected;
  }

  -- Without network faults and whatever integers the counters of a sale hold, the pass at startup
  -- reports what it counted and read and whether the counters were off, and leaves them at what
  -- the rows say.
  pub reconcile_sale-Repaired :
      (sale now : ℕ) (total a r : ℤ) (w : World E)
      → w.faults ≡ []
      → counter E w.redis (available_key E sale) ≡ some a
      → counter E w.redis (reserved_key E sale) ≡ some r
      → let (res, w') = reconcile_sale E sale total now w in
        let c = tally sale now w.db in
        (res ≡ ok (startup_result sale total c a r (drifted a r total c)))
        × Repaired E sale now total w w'
  unfolding reconcile_sale
  reconcile_sale-Repaired sale now total a r w calm ha hr =
      let c = tally sale now w.db in
      let w0 : World E = record w { faults = [] } in
      let steps = counted_and_read E sale now total a r w calm ha hr (λ c x y.
        if drifted x y total c
        then correct_sale E (startup_result sale total c x y false)
        else pure (startup_result sale total c x y false)) in
      elim (Bool-cases (drifted a r total c)) [
        | inl off ↦
            let corrected =
              then-ok (set_both E sale (expected total c) c.reserved)
                (pure (startup_result sale total c a r true))
                (set_both_calm E sale c.reserved (expected total c) w0 refl) in
            rw (steps, off, corrected) (refl, set_Repaired E sale now total w w.db refl refl)
        | inr fine ↦
            let (ea, er) = in_step E sale now total a r w calm ha hr fine in
            rw (steps, fine)
              (refl, synced_already E sale now total w (ha ∙ ap some ea) (hr ∙ ap some er))
      ]

  -- What is logged about a pass leaves its repair in place.
  pub log_result-Repaired :
      (sale now : ℕ) (total : ℤ) (r : ReconciliationResult) (w w1 : World E)
      → Repaired E sale now total w w1
      → (w2 : World E) × (log_result E sale (some r) w1 ≡ (ok tt, w2))
        × Repaired E sale now total w w2
  log_result-Repaired sale now total r w w1 p =
      let (t, rows, orders, logged) = log_calm E EventType.startup_reconciliation sale w1 p.calm in
      elim (Bool-cases r.corrected) [
        | inl changed ↦ (
          record w1 { db = t; faults = [] },
          rw changed logged,
          record {
            calm = refl;
            rows = rows ∙ p.rows;
            orders = orders ∙ p.orders;
            available = p.available;
            reserved = p.reserved;
            others = p.others;
          },
        )
        | inr no_change ↦ (w1, rw no_change, p)
      ]

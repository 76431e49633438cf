-- ===== src/Reconcile/Restart.antt =====
-- The reconciliation at startup restores the invariant between Redis and PostgreSQL from the rows.
use flash_sale.Common.{ℕ, ◌≡◌, refl, subst, ◌∙◌, some, [], ◌∷◌, List, ◌⊎◌}
use flash_sale.Common.Int.{ℤ, pos}
use flash_sale.Platform.{Platform}
use flash_sale.Database.{Tables}
use flash_sale.Effects.{World, ok, Error, ◌>>◌, wrap, attempt, db_query}
use flash_sale.Effects.Steps.{answered, bind-ok, then-ok, attempt-ok, wrap-ok}
use flash_sale.Effects.Calm.{db_query_found}
use flash_sale.Reservation.Sync.{InSync}
use flash_sale.Reconcile.{tally, active_sales, drifted}
use flash_sale.Reconcile.Startup.{
  reconcile_sale, each_row, reconcile_on_startup, count_result, log_result, Progress,
}
use flash_sale.Reconcile.Repair.{Repaired}
use flash_sale.Reconcile.Report.{reconcile_sale-Repaired, startup_result, log_result-Repaired}
use flash_sale.Reconcile.Sync.{
  Listed, Totals, Restorable, CountsAt, still-Restorable, still_counted, all_in_step,
}

abbrev nothing_done : Progress
nothing_done = record { processed = 0; corrections = 0 }

module _ (E : Platform) (totals : ℕ → ℕ) where
  each_row-InSync :
      (rows : List (ℕ × ℤ)) (now : ℕ) (n : Progress) (w : World E)
      → Totals totals rows
      → Restorable E totals now w
      → ((b : ℕ) → CountsAt E totals w b ⊎ Listed b rows)
      → (k : Progress) × (w' : World E) × (each_row E rows now n w ≡ (ok k, w'))
        × InSync E totals w'
  unfolding each_row
  each_row-InSync [] now n w right h covered = (n, w, refl, all_in_step E totals now w h covered)
  each_row-InSync ((sale, total) ∷ rest) now n w (right, right_rest) h covered =
      let (a, r, ha, hr) = h.readable sale in
      let m = reconcile_sale E sale total now in
      let (res, p) = reconcile_sale-Repaired E sale now total a r w h.calm ha hr in
      let p' = subst (λ x. Repaired E sale now x w (m w).1) right p in
      let c = tally sale now w.db in
      let result = startup_result E sale total c a r (drifted a r total c) in
      let (w2, logged, p2) =
        log_result-Repaired E sale now (pos (totals sale)) result w (m w).1 p' in
      let (k, w', e, synced) =
        each_row-InSync rest now (count_result (some result) n) w2 right_rest
          (still-Restorable E totals sale now w w2 h p2)
          (λ b.
            still_counted E totals sale now w w2 h p2 rest b (
              subst (λ x. CountsAt E totals w b ⊎ Listed b ((sale, x) ∷ rest)) right
                (covered b))) in
      (
        k,
        w',
        bind-ok (attempt m) (λ c. log_result E sale c >> each_row E rest now (count_result c n))
              (attempt-ok m (answered m w res))
            ∙ then-ok (log_result E sale (some result))
                (each_row E rest now (count_result (some result) n)) logged
            ∙ e,
        synced,
      )

  -- The reconciliation at startup without network faults returns, and ends with every sale in
  -- step, if the counters are integers of any value, no reserved row has expired, the rows of each
  -- sale fit into its total, and each sale that is not active is in step already.
  pub reconcile_on_startup-InSync :
      (now : ℕ) (w : World E)
      → Totals totals (active_sales w.db.sales)
      → Restorable E totals now w
      → ((b : ℕ) → CountsAt E totals w b ⊎ Listed b (active_sales w.db.sales))
      → (k : Progress) × (w' : World E) × (reconcile_on_startup E now w ≡ (ok k, w'))
        × InSync E totals w'
  unfolding reconcile_on_startup
  reconcile_on_startup-InSync now w right h covered =
      let query = λ (t : Tables). some (active_sales t.sales) in
      let w0 : World E = record w { faults = [] } in
      let h0 : Restorable E totals now w0 = record {
        calm = refl;
        rows_valid = h.rows_valid;
        readable = h.readable;
        unexpired = h.unexpired;
        small = h.small;
        fits = h.fits;
      } in
      let (k, w', e, synced) =
        each_row-InSync (active_sales w.db.sales) now nothing_done w0 right h0 covered in
      (
        k,
        w',
        bind-ok (wrap Error.query_sales_failed (db_query query))
              (λ rows. each_row E rows now nothing_done)
              (wrap-ok (db_query query) Error.query_sales_failed
                (db_query_found w h.calm query refl))
            ∙ e,
        synced,
      )

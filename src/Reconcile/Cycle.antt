-- ===== src/Reconcile/Cycle.antt =====
-- A whole cycle of the worker restores the invariant between Redis and PostgreSQL from the rows.
use flash_sale.Common.{ℕ, ◌≡◌, refl, subst, ◌∙◌, some, [], ◌∷◌, List, ◌⊎◌}
use flash_sale.Common.Int.{ℤ}
use flash_sale.Platform.{Platform}
use flash_sale.Database.{Tables}
use flash_sale.Effects.{World, ok, Error, wrap, attempt, db_query}
use flash_sale.Effects.Steps.{answered, bind-ok, attempt-ok, wrap-ok}
use flash_sale.Effects.Calm.{db_query_found}
use flash_sale.Reservation.Sync.{InSync}
use flash_sale.Reconcile.{tally, active_sales, drifted}
use flash_sale.Reconcile.Worker.{
  reconcile_single_sale, each_sale, reconcile_all_sales, add_correction,
}
use flash_sale.Reconcile.Repair.{Repaired, reconcile_single_sale-Repaired}
use flash_sale.Reconcile.Sync.{
  Listed, Totals, Restorable, CountsAt, still-Restorable, still_counted, all_in_step,
}

module _ (E : Platform) (totals : ℕ → ℕ) where
  each_sale-InSync :
      (rows : List (ℕ × ℤ)) (now n : ℕ) (w : World E)
      → Totals totals rows
      → Restorable E totals now w
      → ((b : ℕ) → CountsAt E totals w b ⊎ Listed b rows)
      → (k : ℕ) × (w' : World E) × (each_sale E rows now n w ≡ (ok k, w')) × InSync E totals w'
  unfolding each_sale
  each_sale-InSync [] now n w right h covered = (n, w, refl, all_in_step E totals now w h covered)
  each_sale-InSync ((sale, total) ∷ rest) now n w (right, right_rest) h covered =
      let (a, r, ha, hr) = h.readable sale in
      let m = reconcile_single_sale E sale total now in
      let (res, p) = reconcile_single_sale-Repaired E sale now total a r w h.calm ha hr in
      let p' = subst (λ x. Repaired E sale now x w (m w).1) right p in
      let corrected = drifted a r total (tally sale now w.db) in
      let (k, w', e, synced) =
        each_sale-InSync rest now (add_correction E (some corrected) n) (m w).1 right_rest
          (still-Restorable E totals sale now w (m w).1 h p')
          (λ b.
            still_counted E totals sale now w (m w).1 h p' rest b (
              subst (λ x. CountsAt E totals w b ⊎ Listed b ((sale, x) ∷ rest)) right
                (covered b))) in
      (
        k,
        w',
        bind-ok (attempt m) (λ c. each_sale E rest now (add_correction E c n))
              (attempt-ok m (answered m w res))
            ∙ e,
        synced,
      )

  -- A cycle of the worker without network faults returns, and ends with every sale in step, if the
  -- counters are integers of any value, no reserved row has expired, the rows of each sale fit
  -- into its total, and each sale that is not active is in step already.
  pub reconcile_all_sales-InSync :
      (now : ℕ) (w : World E)
      → Totals totals (active_sales w.db.sales)
      → Restorable E totals now w
      → ((b : ℕ) → CountsAt E totals w b ⊎ Listed b (active_sales w.db.sales))
      → (k : ℕ) × (w' : World E) × (reconcile_all_sales E now w ≡ (ok k, w')) × InSync E totals w'
  unfolding reconcile_all_sales
  reconcile_all_sales-InSync now w right h covered =
      let query = λ (t : Tables). some (active_sales t.sales) in
      let w0 : World E = record w { faults = [] } in
      let h0 : Restorable E totals now w0 = record {
        calm = refl;
        rows_valid = h.rows_valid;
        readable = h.readable;
        unexpired = h.unexpired;
        small = h.small;
        fits = h.fits;
      } in
      let (k, w', e, synced) =
        each_sale-InSync (active_sales w.db.sales) now 0 w0 right h0 covered in
      (
        k,
        w',
        bind-ok (wrap Error.query_sales_failed (db_query query)) (λ rows. each_sale E rows now 0)
              (wrap-ok (db_query query) Error.query_sales_failed
                (db_query_found w h.calm query refl))
            ∙ e,
        synced,
      )

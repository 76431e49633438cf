-- ===== src/Reconcile/Idle.antt =====
-- A sale that is in step is left alone.
use flash_sale.Common.{ℕ, ◌+◌, ◌-◌, ◌≤◌, ◌≡◌, sym, ap, ◌∙◌, [], false, if◌then◌else◌}
use flash_sale.Common.Int.{ℤ, pos, ◌-ℤ◌, eqb_ℤ_iff, int_laws}
use flash_sale.Platform.{Platform}
use flash_sale.Database.{count_reserved}
use flash_sale.Effects.{World, ok, pure}
use flash_sale.Reservation.Sync.{InSync, reserved_in, sold_in}
use flash_sale.Reconcile.{Tally, tally, expected, drifted}
use flash_sale.Reconcile.Worker.{reconcile_single_sale, correct_drift}
use flash_sale.Reconcile.Repair.{counted_and_read}

not_drifted :
    (a r total : ℤ) (c : Tally)
    → a ≡ expected total c
    → r ≡ pos c.reserved
    → drifted a r total c ≡ false
not_drifted a r total c ea er =
    rw ((eqb_ℤ_iff a (expected total c)).1 ea, (eqb_ℤ_iff r (pos c.reserved)).1 er)

left_of : (n q o : ℕ) → q + o ≤ n → pos (n - (q + o)) ≡ pos n -ℤ pos q -ℤ pos o
left_of n q o fit = omega int_laws

module _ (E : Platform) (totals : ℕ → ℕ) where
  -- From a state in step and without network faults, the pass of the worker over a sale with its
  -- total, none of whose reserved rows has expired, reports no correction and changes nothing.
  pub reconcile_single_sale-InSync :
      (sale now : ℕ) (w : World E)
      → InSync E totals w
      → count_reserved sale now w.db ≡ reserved_in w.db sale
      → reconcile_single_sale E sale (pos (totals sale)) now w
        ≡ (ok false, record w { faults = [] })
  unfolding reconcile_single_sale
  reconcile_single_sale-InSync sale now w h unexpired =
      let counts = h.counts sale in
      let total = pos (totals sale) in
      let q = reserved_in w.db sale in
      let a = pos (totals sale - (q + sold_in w.db sale)) in
      let c = tally sale now w.db in
      let steps =
        counted_and_read E sale now total a (pos q) w h.calm counts.available_held
          counts.reserved_held
          (λ c x y. if drifted x y total c then correct_drift E sale total c else pure false) in
      let fine : drifted a (pos q) total c ≡ false =
        not_drifted a (pos q) total c
          (left_of (totals sale) q (sold_in w.db sale) counts.within
            ∙ ap (λ n. total -ℤ pos n -ℤ pos (sold_in w.db sale)) (sym unexpired))
          (ap pos (sym unexpired)) in
      steps
      ∙ ap
          (λ b. (if b then correct_drift E sale total c else pure false) (record w { faults = [] }))
          fine

-- ===== src/Reconcile/Sync.antt =====
-- One sale at a time, a reconciliation brings the counters in step with the rows.
use flash_sale.Common.{
  ℕ, ◌+◌, ◌≤◌, ◌≡◌, ◌≢◌, sym, ap, subst, ◌∙◌, some, [], ◌∷◌, List, ◌⊎◌, inl, inr, Bool-cases, ◌==◌,
  ==_iff, ◌-◌, ◌&&◌, count, ltb,
}
use flash_sale.Common.Int.{ℤ, pos, ◌-ℤ◌, int_laws}
use flash_sale.Platform.{Platform}
use flash_sale.Platform.Keyspace.{integer_at}
use flash_sale.Database.{count_reserved, is_reserved, is_sold}
use flash_sale.Database.Rows.{AllValid, reserved_rows}
use flash_sale.Effects.{World}
use flash_sale.Redis.Keys.{available_key, reserved_key}
use flash_sale.Redis.Counters.{counter}
use flash_sale.Redis.Counts.{Counts, same-Counts, recount}
use flash_sale.Reservation.Sync.{InSync, reserved_in, sold_in}
use flash_sale.Reconcile.{tally, expected}
use flash_sale.Reconcile.Repair.{Repaired}

-- The row set names the sale.
abbrev pub Listed : ℕ → List (ℕ × ℤ) → Type 0
Listed b [] = ⊥
Listed b ((sale, total) ∷ rest) = (b ≡ sale) ⊎ Listed b rest

-- Each row of the set has the total of its sale.
abbrev pub Totals : (ℕ → ℕ) → List (ℕ × ℤ) → Type 0
Totals totals [] = Unit {0}
Totals totals ((sale, total) ∷ rest) = (total ≡ pos (totals sale)) × Totals totals rest

module _ (E : Platform) (totals : ℕ → ℕ) where
  -- The counters are integers of any value, no reserved row has expired, and the rows fit.
  pub record Restorable (now : ℕ) (w : World E) : Type 0 where
    pub calm : w.faults ≡ []
    pub rows_valid : AllValid w.db.reservations
    pub readable :
        (b : ℕ)
        → (a r : ℤ) × (counter E w.redis (available_key E b) ≡ some a)
          × (counter E w.redis (reserved_key E b) ≡ some r)
    pub unexpired : (b : ℕ) → count_reserved b now w.db ≡ reserved_in w.db b
    pub small : (b : ℕ) → totals b ≤ 2147483647
    pub fits : (b : ℕ) → reserved_in w.db b + sold_in w.db b ≤ totals b

  abbrev pub CountsAt : World E → ℕ → Type 0
  CountsAt w b = Counts E (totals b) (reserved_in w.db b) (sold_in w.db b) b w.redis

  module _ (sale now : ℕ) (w w' : World E) (h : Restorable now w)
      (p : Repaired E sale now (pos (totals sale)) w w') where
    expected_pos : (n q o : ℕ) → q + o ≤ n → pos n -ℤ pos q -ℤ pos o ≡ pos (n - (q + o))
    expected_pos n q o fit = omega int_laws

    counts_self : CountsAt w' sale
    counts_self =
        recount E (ap (λ rs. reserved_rows sale rs) (sym p.rows))
          (ap (λ os. count (λ o. o.sale_id == sale && is_sold o.status) os) (sym p.orders))
          (record {
            small = h.small sale;
            within = h.fits sale;
            available_held =
                p.available
                ∙ ap (λ q. some (pos (totals sale) -ℤ pos q -ℤ pos (sold_in w.db sale)))
                    (h.unexpired sale)
                ∙ ap some (
                    expected_pos (totals sale) (reserved_in w.db sale) (sold_in w.db sale)
                      (h.fits sale));
            reserved_held = p.reserved ∙ ap (λ q. some (pos q)) (h.unexpired sale);
          })

    counts_other : (b : ℕ) → b ≢ sale → CountsAt w b → CountsAt w' b
    counts_other b apart c =
        recount E (ap (λ rs. reserved_rows b rs) (sym p.rows))
          (ap (λ os. count (λ o. o.sale_id == b && is_sold o.status) os) (sym p.orders))
          (same-Counts E (p.others b apart) c)

    pub still-Restorable : Restorable now w'
    still-Restorable = record {
      calm = p.calm;
      rows_valid = subst AllValid (sym p.rows) h.rows_valid;
      readable = λ b. elim (Bool-cases (b == sale)) [
        | inl hit ↦
            subst
              (λ d.
                (a r : ℤ) × (counter E w'.redis (available_key E d) ≡ some a)
                × (counter E w'.redis (reserved_key E d) ≡ some r))
              (sym ((==_iff b sale).0 hit))
              (
                expected (pos (totals sale)) (tally sale now w.db),
                pos (count_reserved sale now w.db),
                p.available,
                p.reserved,
              )
        | inr miss ↦
            let (a, r, ha, hr) = h.readable b in
            let same_at = p.others b (λ e. cc (miss, (==_iff b sale).1 e)) in
            (a, r, ap integer_at same_at.0 ∙ ha, ap integer_at same_at.1 ∙ hr)
      ];
      unexpired = λ b.
          subst
            (λ rs.
              count (λ r. r.sale_id == b && is_reserved r.status && ltb now r.expires_at) rs
              ≡ reserved_rows b rs)
            (sym p.rows) (h.unexpired b);
      small = h.small;
      fits = λ b. rw (p.rows, p.orders) (h.fits b);
    }

    pub still_counted :
        (rest : List (ℕ × ℤ)) (b : ℕ)
        → (CountsAt w b ⊎ Listed b ((sale, pos (totals sale)) ∷ rest))
        → CountsAt w' b ⊎ Listed b rest
    still_counted rest b given = elim (Bool-cases (b == sale)) [
      | inl hit ↦ inl (subst (λ d. CountsAt w' d) (sym ((==_iff b sale).0 hit)) counts_self)
      | inr miss ↦
          let apart : b ≢ sale = λ e. cc (miss, (==_iff b sale).1 e) in
          elim given [
            | inl c ↦ inl (counts_other b apart c)
            | inr (inl hit) ↦ elim (apart hit) [ ]
            | inr (inr later) ↦ inr later
          ]
    ]

  pub all_in_step :
      (now : ℕ) (w : World E)
      → Restorable now w
      → ((b : ℕ) → CountsAt w b ⊎ Listed b [])
      → InSync E totals w
  all_in_step now w h covered = record {
    calm = h.calm;
    rows_valid = h.rows_valid;
    counts = λ b. elim (covered b) [ inl c ↦ c | inr none_left ↦ elim none_left [ ] ];
  }

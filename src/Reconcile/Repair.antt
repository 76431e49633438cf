-- ===== src/Reconcile/Repair.antt =====
-- One sale through a reconciliation whose calls all get through: whatever integers its counters held,
-- they hold what the rows say.
use flash_sale.Common.{
  ℕ, ◌≡◌, ◌≢◌, refl, ap, ◌∙◌, Option, some, none, [], ◌∷◌, Text, true, false, Bool-cases, inl, inr,
  ◌&&◌, if◌then◌else◌, arith,
}
use flash_sale.Common.Int.{ℤ, pos, eqb_ℤ, eqb_ℤ_iff}
use flash_sale.Platform.{Platform}
use flash_sale.Platform.Keyspace.{num, text, Value, str, zset, hash, integer_at, get_at}
use flash_sale.Models.{EventType}
use flash_sale.Database.{Tables, insert_audit, count_reserved}
use flash_sale.Effects.{
  World, Action, ok, ◌>>=◌, ◌>>◌, attempt, pure, redis_call, db_exec, db_query,
}
use flash_sale.Effects.Steps.{bind-ok, then-ok, attempt-ok}
use flash_sale.Effects.Calm.{redis_call_asked, db_exec_done}
use flash_sale.Redis.Keys.{available_key, reserved_key}
use flash_sale.Redis.Script.{get}
use flash_sale.Redis.Counters.{counter}
use flash_sale.Redis.Counts.{SameAt}
use flash_sale.Redis.Setting.{set_pair, set_pair-SameAt, available-set_pair, reserved-set_pair}
use flash_sale.Reservation.{int_or_zero}
use flash_sale.Reconcile.{Tally, tally, expected, count_rows, read_counter, set_both, drifted}
use flash_sale.Reconcile.Worker.{log_correction, correction, correct_drift, reconcile_single_sale}

module _ (E : Platform) where
  -- The world after both counters are set.
  abbrev pub after_set : ℕ → ℤ → ℕ → World E → World E
  after_set sale a q w = record w { redis = set_pair E sale a (pos q) w.redis; faults = [] }

  pub count_rows_calm :
      (sale now : ℕ) (w : World E)
      → w.faults ≡ []
      → count_rows E sale now w ≡ (ok (tally sale now w.db), record w { faults = [] })
  unfolding count_rows db_query
  count_rows_calm sale now w calm = rw calm

  got : (v : Option Value) (n : ℤ) → integer_at v ≡ some n → int_or_zero (get_at v) ≡ n
  got none n e = cc
  got (some (str (num m))) n e = cc
  got (some (str (text t))) n e = cc
  got (some (zset es)) n e = cc
  got (some (hash fs)) n e = cc

  pub read_counter_calm :
      (k : Text) (n : ℤ) (w : World E)
      → w.faults ≡ []
      → counter E w.redis k ≡ some n
      → read_counter E k w ≡ (ok n, record w { faults = [] })
  unfolding read_counter
  read_counter_calm k n w calm held =
      bind-ok (attempt (redis_call (get E k))) (λ v. pure (int_or_zero v))
        (redis_call_asked w calm (get E k))
      ∙ ap (λ m. (ok m, record w { faults = [] })) (got (E.lookup w.redis k) n held)

  pub set_both_calm :
      (sale q : ℕ) (a : ℤ) (w : World E)
      → w.faults ≡ []
      → set_both E sale a q w ≡ (ok tt, after_set sale a q w)
  unfolding set_both redis_call
  set_both_calm sale q a w calm = rw calm

  module _ (sale now : ℕ) (total a r : ℤ) (w : World E) (calm : w.faults ≡ [])
      (ha : counter E w.redis (available_key E sale) ≡ some a)
      (hr : counter E w.redis (reserved_key E sale) ≡ some r) where
    abbrev found : Tally
    found = tally sale now w.db

    -- What either reconciler does once it has counted and read.
    pub counted_and_read :
        {A : Type 0} (k : Tally → ℤ → ℤ → Action E A)
        → (count_rows E sale now >>= λ c. read_counter E (available_key E sale) >>= λ x.
              read_counter E (reserved_key E sale) >>= λ y. k c x y)
            w
          ≡ k found a r (record w { faults = [] })
    counted_and_read k =
        let w0 : World E = record w { faults = [] } in
        bind-ok (count_rows E sale now)
          (λ c. read_counter E (available_key E sale) >>= λ x.
            read_counter E (reserved_key E sale) >>= λ y. k c x y)
          (count_rows_calm sale now w calm)
        ∙ bind-ok (read_counter E (available_key E sale))
            (λ x. read_counter E (reserved_key E sale) >>= λ y. k found x y)
            (read_counter_calm (available_key E sale) a w0 refl ha)
        ∙ bind-ok (read_counter E (reserved_key E sale)) (k found a)
            (read_counter_calm (reserved_key E sale) r w0 refl hr)

    pub in_step :
        drifted a r total found ≡ false → (a ≡ expected total found) × (r ≡ pos found.reserved)
    in_step h =
        let both : eqb_ℤ a (expected total found) && eqb_ℤ r (pos found.reserved) ≡ true =
          ground arith in
        (
          (eqb_ℤ_iff a (expected total found)).0 (ground arith),
          (eqb_ℤ_iff r (pos found.reserved)).0 (ground arith),
        )

  -- The counters of one sale say what the rows say; those of the others are as they were.
  pub record Repaired (sale now : ℕ) (total : ℤ) (w w' : World E) : Type 0 where
    pub calm : w'.faults ≡ []
    pub rows : w'.db.reservations ≡ w.db.reservations
    pub orders : w'.db.orders ≡ w.db.orders
    pub available :
        counter E w'.redis (available_key E sale) ≡ some (expected total (tally sale now w.db))
    pub reserved :
        counter E w'.redis (reserved_key E sale) ≡ some (pos (count_reserved sale now w.db))
    pub others : (b : ℕ) → b ≢ sale → SameAt E b w.redis w'.redis

  pub synced_already :
      (sale now : ℕ) (total : ℤ) (w : World E)
      → counter E w.redis (available_key E sale) ≡ some (expected total (tally sale now w.db))
      → counter E w.redis (reserved_key E sale) ≡ some (pos (count_reserved sale now w.db))
      → Repaired sale now total w (record w { faults = [] })
  synced_already sale now total w ha hr = record {
    calm = refl;
    rows = refl;
    orders = refl;
    available = ha;
    reserved = hr;
    others = λ b h. (refl, refl);
  }

  -- Whatever is then logged.
  pub set_Repaired :
      (sale now : ℕ) (total : ℤ) (w : World E) (t : Tables)
      → t.reservations ≡ w.db.reservations
      → t.orders ≡ w.db.orders
      → let c = tally sale now w.db in
        Repaired sale now total w
          (record (after_set sale (expected total c) c.reserved w) { db = t; faults = [] })
  set_Repaired sale now total w t same_rows same_orders =
      let c = tally sale now w.db in
      let a = expected total c in
      record {
        calm = refl;
        rows = same_rows;
        orders = same_orders;
        available = available-set_pair E sale a (pos c.reserved) w.redis;
        reserved = reserved-set_pair E sale a (pos c.reserved) w.redis;
        others = λ b h. set_pair-SameAt E sale a (pos c.reserved) w.redis b h;
      }

  pub log_calm :
      (event : EventType) (sale : ℕ) (w : World E)
      → w.faults ≡ []
      → (t : Tables) × (t.reservations ≡ w.db.reservations)
        × (t.orders ≡ w.db.orders)
        × (log_correction E event sale w ≡ (ok tt, record w { db = t; faults = [] }))
  unfolding insert_audit
  log_calm event sale w calm =
      let t = record w.db { audit_log = correction event sale ∷ w.db.audit_log } in
      (
        t,
        refl,
        refl,
        then-ok (attempt (db_exec (insert_audit (correction event sale)))) (pure tt) (
            attempt-ok (db_exec (insert_audit (correction event sale)))
              (db_exec_done w calm (insert_audit (correction event sale)) refl)),
      )

  pub reconcile_single_sale-Repaired :
      (sale now : ℕ) (total a r : ℤ) (w : World E)
      → w.faults ≡ []
      → counter E w.redis (available_key E sale) ≡ some a
      → counter E w.redis (reserved_key E sale) ≡ some r
      → let (res, w') = reconcile_single_sale E sale total now w in
        (res ≡ ok (drifted a r total (tally sale now w.db))) × Repaired sale now total w w'
  unfolding reconcile_single_sale correct_drift
  reconcile_single_sale-Repaired sale now total a r w calm ha hr =
      let c = tally sale now w.db in
      let w0 : World E = record w { faults = [] } in
      let steps =
        counted_and_read sale now total a r w calm ha hr
          (λ c x y. if drifted x y total c then correct_drift E sale total c else pure false) in
      elim (Bool-cases (drifted a r total c)) [
        | inl off ↦
            let w1 = after_set sale (expected total c) c.reserved w0 in
            let (t, rows, orders, logged) =
              log_calm EventType.reconciliation_correction sale w1 refl in
            let corrected =
              then-ok (set_both E sale (expected total c) c.reserved)
                (log_correction E EventType.reconciliation_correction sale >> pure true)
                (set_both_calm sale c.reserved (expected total c) w0 refl)
              ∙ then-ok (log_correction E EventType.reconciliation_correction sale) (pure true)
                  logged in
            rw (steps, off, corrected) (refl, set_Repaired sale now total w t rows orders)
        | inr fine ↦
            let (ea, er) = in_step sale now total a r w calm ha hr fine in
            rw (steps, fine)
              (refl, synced_already sale now total w (ha ∙ ap some ea) (hr ∙ ap some er))
      ]

-- ===== src/Inventory/Create.antt =====
-- The counters that CreateSale gives a new sale.
use flash_sale.Common.{
  ℕ, ◌≤◌, ◌≡◌, ◌≢◌, refl, sym, ap, subst, ◌∙◌, Option, some, [], ◌∷◌, List, Text, arith, Bool, true,
  false, ◌==◌, ==_iff, if◌then◌else◌, Option-cases, Bool-cases, inl, inr, ◌&&◌,
}
use flash_sale.Common.Int.{pos}
use flash_sale.Platform.{Platform}
use flash_sale.Platform.Keyspace.{Scalar, num, fields_at}
use flash_sale.Models.{Sale}
use flash_sale.Database.{Tables, insert_sale, is_some}
use flash_sale.Database.Rows.{AllValid}
use flash_sale.Effects.{
  World, Action, Result, ok, err, Error, ◌>>=◌, ◌>>◌, wrap, attempt, pure, redis_call, db_exec,
}
use flash_sale.Effects.Steps.{bind-ok, then-ok, attempt-ok, wrap-ok}
use flash_sale.Effects.Calm.{redis_call_calm, redis_call_tried, db_exec_done}
use flash_sale.Redis.Keys.{available_key, reserved_key, meta_key}
use flash_sale.Redis.Apart.{available_key-ne-meta_key, reserved_key-ne-meta_key}
use flash_sale.Redis.Counters.{put_ne}
use flash_sale.Redis.Setting.{
  set_available, set_pair, set_pair-SameAt, available-set_pair, reserved-set_pair,
}
use flash_sale.Redis.Counts.{Counts, AllCounts, SameAt, same-Counts, recount}
use flash_sale.Reservation.Sync.{InSync, reserved_in, sold_in}
use flash_sale.Inventory.{
  SaleInput, new_sale, set_counter, meta_fields, settle_pipe, init_redis, create_sale,
}

module _ (E : Platform) where
  pub hset-SameAt :
      (id b : ℕ) (fs : List (Text × Scalar)) (s : E.Store)
      → SameAt E b s (E.hset (meta_key E id) fs s).1
  hset-SameAt id b fs s = elim (Option-cases (fields_at (E.lookup s (meta_key E id)))) [
    | inl other_type ↦ rw (E.hset_error (meta_key E id) fs s other_type) (refl, refl)
    | inr (old, held) ↦ rw (E.lookup-hset (meta_key E id) fs s old held) (
      put_ne (meta_key E id) (available_key E b) _ (E.lookup s) (available_key-ne-meta_key E id b),
      put_ne (meta_key E id) (reserved_key E b) _ (E.lookup s) (reserved_key-ne-meta_key E id b),
    )
  ]

  module _ (sale : Sale) (s : E.Store) where
    abbrev pub with_both : E.Store
    with_both = set_pair E sale.id sale.total_stock (pos 0) s

    abbrev pub initialised : E.Store
    initialised = (E.hset (meta_key E sale.id) (meta_fields E sale) with_both).1

    -- The sale starts with all of its stock available.
    both_self :
        (n : ℕ) → sale.total_stock ≡ pos n → n ≤ 2147483647 → Counts E n 0 0 sale.id with_both
    both_self n e small = record {
      small = small;
      within = omega arith;
      available_held =
          available-set_pair E sale.id sale.total_stock (pos 0) s
          ∙ ap some (e ∙ ap pos (omega arith));
      reserved_held = reserved-set_pair E sale.id sale.total_stock (pos 0) s;
    }

  settle_pipe-world : (b : Bool) (w : World E) → (settle_pipe E b w).1 ≡ w
  settle_pipe-world true w = refl
  settle_pipe-world false w = refl

  module _ (sale : Sale) where
    abbrev hash_call : Action E (Option ℕ)
    hash_call = attempt (redis_call (E.hset (meta_key E sale.id) (meta_fields E sale)))

    abbrev reserved_call : Action E (Option (Unit {0}))
    reserved_call = attempt (set_counter E (reserved_key E sale.id) (pos 0))

    abbrev available_call : Action E (Option (Unit {0}))
    available_call = attempt (set_counter E (available_key E sale.id) sale.total_stock)

    abbrev settle_stage : Option (Unit {0}) → Option (Unit {0}) → Option ℕ → Action E (Unit {0})
    settle_stage a b c = settle_pipe E (is_some a && is_some b && is_some c)

    abbrev hash_stage : Option (Unit {0}) → Option (Unit {0}) → Action E (Unit {0})
    hash_stage a b = do c ← hash_call; settle_stage a b c

    abbrev reserved_stage : Option (Unit {0}) → Action E (Unit {0})
    reserved_stage a = do b ← reserved_call; hash_stage a b

    init_redis-world :
        (w : World E)
        → w.faults ≡ []
        → (init_redis E sale w).1 ≡ record w { redis = initialised sale w.redis; faults = [] }
    unfolding init_redis
    init_redis-world w calm =
        let w1 = record w {
          redis = set_available E sale.id sale.total_stock (pos 0) w.redis;
          faults = [];
        } in
        let w2 = record w { redis = with_both sale w.redis; faults = [] } in
        let (o, tried) =
          redis_call_tried w2 refl (E.hset (meta_key E sale.id) (meta_fields E sale)) in
        ap (λ p. p.1)
          (bind-ok available_call reserved_stage (
              attempt-ok (set_counter E (available_key E sale.id) sale.total_stock) (
                redis_call_calm w calm
                  (λ s. (some tt, set_available E sale.id sale.total_stock (pos 0) s)) refl))
            ∙ bind-ok reserved_call (hash_stage (some tt)) (
                attempt-ok (set_counter E (reserved_key E sale.id) (pos 0)) (
                  redis_call_calm w1 refl
                    (λ s. (some tt, E.set (reserved_key E sale.id) (num (pos 0)) 0 s)) refl))
            ∙ bind-ok hash_call (settle_stage (some tt) (some tt)) tried)
        ∙ settle_pipe-world (is_some o) (record w { redis = initialised sale w.redis; faults = [] })

  pure_after :
      (sale : Sale) (w : World E) → ((init_redis E sale >> pure sale) w).1 ≡ (init_redis E sale w).1
  pure_after sale w = kept (init_redis E sale w).0 (init_redis E sale w).1
    where
      kept :
          (r : Result (Unit {0})) (v : World E)
          → (elim r as (λ _. Result Sale × World E) [ ok a ↦ pure sale v | err e ↦ (err e, v) ]).1
            ≡ v
      kept (ok a) v = refl
      kept (err e) v = refl

  pub inserted_sale :
      (sale : Sale) (t u : Tables)
      → insert_sale sale t ≡ some u
      → record t { sales = sale ∷ t.sales } ≡ u
  unfolding insert_sale
  inserted_sale sale t u e = ground arith

  -- The counters of every sale once a sale without rows has been given its own.
  initialised-AllCounts :
      (totals q o : ℕ → ℕ) (sale : Sale) (n : ℕ) (s : E.Store)
      → AllCounts E totals q o s
      → sale.total_stock ≡ pos n
      → n ≤ 2147483647
      → q sale.id ≡ 0
      → o sale.id ≡ 0
      → AllCounts E (λ b. if b == sale.id then n else totals b) q o (initialised sale s)
  initialised-AllCounts totals q o sale n s all stock small no_q no_o b =
      let hashed = hset-SameAt sale.id b (meta_fields E sale) (with_both sale s) in
      elim (Bool-cases (b == sale.id)) [
        | inl hit ↦
            let same_id = (==_iff b sale.id).0 hit in
            rw hit (
              recount E (rw (same_id, no_q) refl) (rw (same_id, no_o) refl) (
                same-Counts E hashed (
                  subst (λ d. Counts E n 0 0 d (with_both sale s)) (sym same_id)
                    (both_self sale s n stock small))))
        | inr miss ↦
            let apart : b ≢ sale.id = λ e. cc (miss, (==_iff b sale.id).1 e) in
            rw miss (
              same-Counts E hashed (
                same-Counts E (set_pair-SameAt E sale.id sale.total_stock (pos 0) s b apart)
                  (all b)))
      ]

  pub create_sale-world :
      (input : SaleInput) (id now : ℕ) (t : Tables) (w : World E)
      → w.faults ≡ []
      → insert_sale (new_sale input id now) w.db ≡ some t
      → (create_sale E input id now w).1
        ≡ record w { redis = initialised (new_sale input id now) w.redis; db = t; faults = [] }
  unfolding create_sale
  create_sale-world input id now t w calm inserted =
      let sale = new_sale input id now in
      let w1 : World E = record w { db = t; faults = [] } in
      ap (λ p. p.1)
        (then-ok (wrap Error.create_sale_failed (db_exec (insert_sale sale)))
          (init_redis E sale >> pure sale)
          (wrap-ok (db_exec (insert_sale sale)) Error.create_sale_failed
            (db_exec_done w calm (insert_sale sale) inserted)))
      ∙ pure_after sale w1
      ∙ init_redis-world sale w1 refl

  -- CreateSale, without network faults and of a sale whose row is inserted and which has no
  -- reservations or orders, puts the sale in step with all of its stock available, and leaves the
  -- other sales in step.
  pub create_sale-InSync :
      (totals : ℕ → ℕ) (input : SaleInput) (id now n : ℕ) (t : Tables) (w : World E)
      → InSync E totals w
      → input.total_stock ≡ pos n
      → n ≤ 2147483647
      → reserved_in w.db id ≡ 0
      → sold_in w.db id ≡ 0
      → insert_sale (new_sale input id now) w.db ≡ some t
      → InSync E (λ b. if b == id then n else totals b) (create_sale E input id now w).1
  create_sale-InSync totals input id now n t w h stock small no_rows no_orders inserted =
      let sale = new_sale input id now in
      let rows = inserted_sale sale w.db t inserted in
      subst (InSync E (λ b. if b == id then n else totals b))
        (sym (create_sale-world input id now t w h.calm inserted))
        (record {
          calm = refl;
          rows_valid = subst AllValid (ap (λ u. u.reservations) rows) h.rows_valid;
          counts =
              subst
                (λ u.
                  AllCounts E (λ b. if b == id then n else totals b) (reserved_in u) (sold_in u)
                    (initialised sale w.redis))
                rows
                (initialised-AllCounts totals (reserved_in w.db) (sold_in w.db) sale n w.redis
                  h.counts stock small no_rows no_orders);
        })

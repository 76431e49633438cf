-- ===== src/Inventory/Sync.antt =====
-- GetSale and UpdateSaleStatus leave the counters and the rows as they are, and so does CreateSale where
-- the row is refused.
use flash_sale.Common.{
  ℕ, ◌≡◌, refl, sym, subst, Option, some, none, Text, leb, length, Bool-cases, inl, inr, [],
}
use flash_sale.Platform.{Platform}
use flash_sale.Platform.Keyspace.{Scalar, num, text}
use flash_sale.Common.Int.{ℤ}
use flash_sale.Models.{SaleStatus}
use flash_sale.Database.{Tables, insert_sale, set_sale_status, find_sale, status_name}
use flash_sale.Effects.{World, Error, ◌>>◌, wrap, pure, db_exec, db_query}
use flash_sale.Effects.Steps.{then-err, wrap-err}
use flash_sale.Effects.Calm.{db_exec_failed}
use flash_sale.Effects.Keeps.{Keeps, pure-Keeps, fail-Keeps, wrap-Keeps, bind-Keeps, then-Keeps}
use flash_sale.Redis.Keys.{available_key, reserved_key}
use flash_sale.Redis.Script.{get}
use flash_sale.Redis.Leaves.{read-Leaves}
use flash_sale.Reservation.Sync.{InSync, sync, redis_call-sync}
use flash_sale.Inventory.{
  SaleInput, new_sale, init_redis, int_reply, get_int, get_sale, create_sale, update_sale_status,
}
use flash_sale.Inventory.Create.{hset-SameAt}

module _ (E : Platform) (totals : ℕ → ℕ) where
  pub query-sync : {A : Type 0} (f : Tables → Option A) → Keeps (sync E totals) (db_query f)
  unfolding db_query
  query-sync f = record {
    holds = λ w v. record { calm = rw v.calm; rows_valid = v.rows_valid; counts = v.counts };
  }

  set_sale_status-sync :
      (st : SaleStatus) (id : ℕ) → Keeps (sync E totals) (db_exec (set_sale_status st id))
  unfolding db_exec set_sale_status
  set_sale_status-sync st id = record {
    holds = λ w v. elim (Bool-cases (leb (length (status_name st)) 50)) [
      | inl short ↦
          rw (v.calm, short) (record { calm = refl; rows_valid = v.rows_valid; counts = v.counts })
      | inr long ↦
          rw (v.calm, long) (record { calm = refl; rows_valid = v.rows_valid; counts = v.counts })
    ];
  }

  int_reply-sync : (v : Option Scalar) → Keeps (sync E totals) (int_reply E v)
  int_reply-sync none = fail-Keeps (sync E totals) ℤ Error.no_rows
  int_reply-sync (some (num n)) = pure-Keeps (sync E totals) n
  int_reply-sync (some (text t)) = fail-Keeps (sync E totals) ℤ Error.parse_failed

  get_int-sync : (k : Text) → Keeps (sync E totals) (get_int E k)
  unfolding get_int
  get_int-sync k =
      bind-Keeps (sync E totals) _ _ (redis_call-sync E totals (get E k) (read-Leaves E _))
        int_reply-sync

  pub get_sale-sync : (id : ℕ) → Keeps (sync E totals) (get_sale E id)
  unfolding get_sale
  get_sale-sync id =
      bind-Keeps (sync E totals) _ _
        (wrap-Keeps (sync E totals) _ _ (query-sync (λ t. find_sale id t.sales)))
        λ sale.
          bind-Keeps (sync E totals) _ _
            (wrap-Keeps (sync E totals) _ _ (get_int-sync (available_key E id)))
            λ a.
              bind-Keeps (sync E totals) _ _
                (wrap-Keeps (sync E totals) _ _ (get_int-sync (reserved_key E id)))
                λ r. pure-Keeps (sync E totals) _

  pub update_sale_status-sync :
      (id : ℕ) (st : SaleStatus) → Keeps (sync E totals) (update_sale_status E id st)
  unfolding update_sale_status
  update_sale_status-sync id st =
      then-Keeps (sync E totals) _ _ (wrap-Keeps (sync E totals) _ _ (set_sale_status-sync st id)) (
        then-Keeps (sync E totals) _ _
          (wrap-Keeps (sync E totals) _ _
            (redis_call-sync E totals _ (record { same_at = λ s b. hset-SameAt E id b _ s })))
          (pure-Keeps (sync E totals) tt))

  -- A row that the table refuses ends CreateSale.
  pub create_sale_refused-InSync :
      (input : SaleInput) (id now : ℕ) (w : World E)
      → InSync E totals w
      → insert_sale (new_sale input id now) w.db ≡ none
      → InSync E totals (create_sale E input id now w).1
  unfolding create_sale
  create_sale_refused-InSync input id now w h refused =
      let sale = new_sale input id now in
      let w0 : World E = record w { faults = [] } in
      let h0 : InSync E totals w0 = record {
        calm = refl;
        rows_valid = h.rows_valid;
        counts = h.counts;
      } in
      subst (λ p. InSync E totals p.1)
        (sym (
          then-err (wrap Error.create_sale_failed (db_exec (insert_sale sale)))
            (init_redis E sale >> pure sale)
            (wrap-err (db_exec (insert_sale sale)) Error.create_sale_failed
              (db_exec_failed w h.calm (insert_sale sale) refused))))
        h0

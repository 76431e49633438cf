-- ===== src/Inventory.antt =====
-- internal/inventory/service.go: the sales and their initial counters.
pub mod Create
pub mod Stats
pub mod Sync
use flash_sale.Common.{
  ℕ, Bool, true, false, ◌&&◌, Option, none, some, List, [], ◌∷◌, Text, codes, if◌then◌else◌,
}
use flash_sale.Common.Int.{ℤ, pos}
use flash_sale.Platform.{Platform}
use flash_sale.Platform.Keyspace.{Scalar, num, text}
use flash_sale.Models.{Sale, SaleStatus}
use flash_sale.Database.{Tables, insert_sale, find_sale, set_sale_status, status_name, is_some}
use flash_sale.Effects.{
  Action, Error, pure, fail, wrap, attempt, ◌>>=◌, ◌>>◌, redis_call, db_exec, db_query,
}
use flash_sale.Redis.Script.{get}
use flash_sale.Redis.Keys.{available_key, reserved_key, meta_key}

-- SaleInput, and the fields of a sale that CreateSale reads.
pub record SaleInput : Type 0 where
  pub name : Text
  pub total_stock : ℤ
  pub start_time : ℕ
  pub end_time : ℕ

pub record SaleStats : Type 0 where
  pub available : ℤ
  pub reserved : ℤ
  pub total : ℤ

abbrev pub new_sale : SaleInput → ℕ → ℕ → Sale
new_sale input id now = record {
  id = id;
  name = input.name;
  total_stock = input.total_stock;
  start_time = input.start_time;
  end_time = input.end_time;
  status = SaleStatus.pending;
  created_at = now;
}

module _ (E : Platform) where
  abbrev pub set_counter : Text → ℤ → Action E (Unit {0})
  set_counter k n = redis_call (λ s. (some tt, E.set k (num n) 0 s))

  abbrev pub meta_fields : Sale → List (Text × Scalar)
  meta_fields sale =
      (codes "total", num sale.total_stock)
      ∷ (codes "start_time", num (pos sale.start_time))
      ∷ (codes "end_time", num (pos sale.end_time))
      ∷ (codes "status", text (status_name sale.status))
      ∷ []

  abbrev pub settle_pipe : Bool → Action E (Unit {0})
  settle_pipe true = pure tt
  settle_pipe false = fail Error.init_redis_failed

  -- The pipeline: its commands run in turn, and it fails if any of them does.
  unfoldable pub init_redis : Sale → Action E (Unit {0})
  init_redis sale = do
    a ← attempt (set_counter (available_key E sale.id) sale.total_stock)
    b ← attempt (set_counter (reserved_key E sale.id) (pos 0))
    c ← attempt (redis_call (E.hset (meta_key E sale.id) (meta_fields sale)))
    settle_pipe (is_some a && is_some b && is_some c)

  -- Service.CreateSale; the identifier and the time are drawn by the caller.
  unfoldable pub create_sale : SaleInput → ℕ → ℕ → Action E Sale
  create_sale input id now = do
    wrap Error.create_sale_failed (db_exec (insert_sale (new_sale input id now)))
    init_redis (new_sale input id now)
    pure (new_sale input id now)

  -- `rdb.Get(…).Int()`
  abbrev pub int_reply : Option Scalar → Action E ℤ
  int_reply none = fail Error.no_rows
  int_reply (some (num n)) = pure n
  int_reply (some (text t)) = fail Error.parse_failed

  unfoldable pub get_int : Text → Action E ℤ
  get_int k = do value ← redis_call (get E k); int_reply value

  -- Service.GetSale
  unfoldable pub get_sale : ℕ → Action E (Sale × SaleStats)
  get_sale id = do
    sale ← wrap Error.get_sale_failed (db_query (λ t. find_sale id t.sales))
    available ← wrap Error.available_failed (get_int (available_key E id))
    reserved ← wrap Error.reserved_failed (get_int (reserved_key E id))
    pure (sale, record { available = available; reserved = reserved; total = sale.total_stock })

  -- Service.UpdateSaleStatus
  unfoldable pub update_sale_status : ℕ → SaleStatus → Action E (Unit {0})
  update_sale_status id status = do
    wrap Error.update_status_failed (db_exec (set_sale_status status id))
    wrap Error.redis_status_failed
        (redis_call (E.hset (meta_key E id) ((codes "status", text (status_name status)) ∷ [])))
    pure tt

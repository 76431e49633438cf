-- ===== src/Reconcile.antt =====
-- What internal/worker/reconciler.go and internal/recovery/reconcile_startup.go have in common: they
-- count the rows of a sale, read its two counters, and write both where either is off.
pub mod Worker
pub mod Startup
pub mod Repair
pub mod Sync
pub mod Cycle
pub mod Report
pub mod Agree
pub mod Restart
pub mod Idle
use flash_sale.Common.{
  ℕ, Bool, ◌&&◌, not, Option, some, List, [], ◌∷◌, Text, same, codes, if◌then◌else◌,
}
use flash_sale.Common.Int.{ℤ, pos, ◌-ℤ◌, eqb_ℤ}
use flash_sale.Platform.{Platform}
use flash_sale.Platform.Keyspace.{num}
use flash_sale.Models.{Sale}
use flash_sale.Database.{Tables, count_reserved, count_orders, status_name}
use flash_sale.Effects.{Action, Error, pure, wrap, attempt, ◌>>=◌, ◌>>◌, redis_call, db_query}
use flash_sale.Redis.Script.{get}
use flash_sale.Redis.Keys.{available_key, reserved_key}
use flash_sale.Reservation.{int_or_zero}

-- What the two counting queries find for a sale.
pub record Tally : Type 0 where
  pub reserved : ℕ
  pub confirmed : ℕ

abbrev pub tally : ℕ → ℕ → Tables → Tally
tally sale now t = record { reserved = count_reserved sale now t; confirmed = count_orders sale t }

-- SELECT id, total_stock FROM sales WHERE status = 'active'
abbrev pub active_sales : List Sale → List (ℕ × ℤ)
active_sales [] = []
active_sales (x ∷ xs) =
    let rest = active_sales xs in
    if same (status_name x.status) (codes "active") then (x.id, x.total_stock) ∷ rest else rest

abbrev pub expected : ℤ → Tally → ℤ
expected total c = total -ℤ pos c.reserved -ℤ pos c.confirmed

module _ (E : Platform) where
  unfoldable pub count_rows : ℕ → ℕ → Action E Tally
  count_rows sale now = do
    reserved ←
        wrap Error.count_reservations_failed (db_query (λ t. some (count_reserved sale now t)))
    confirmed ← wrap Error.count_orders_failed (db_query (λ t. some (count_orders sale t)))
    pure (record { reserved = reserved; confirmed = confirmed })

  -- `n, _ := rdb.Get(…).Int()`
  unfoldable pub read_counter : Text → Action E ℤ
  read_counter k = do value ← attempt (redis_call (get E k)); pure (int_or_zero value)

  unfoldable pub set_both : ℕ → ℤ → ℕ → Action E (Unit {0})
  set_both sale available reserved = do
    wrap Error.set_available_failed
        (redis_call (λ s. (some tt, E.set (available_key E sale) (num available) 0 s)))
    wrap Error.set_reserved_failed
        (redis_call (λ s. (some tt, E.set (reserved_key E sale) (num (pos reserved)) 0 s)))

-- `redisAvailable != expectedAvailable || redisReserved != pgReserved`
abbrev pub drifted : ℤ → ℤ → ℤ → Tally → Bool
drifted available reserved total c =
    not (eqb_ℤ available (expected total c) && eqb_ℤ reserved (pos c.reserved))

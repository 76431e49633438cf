-- ===== src/Redis/Client.antt =====
-- internal/redis/client.go: each method runs one script on the keys of a sale.
use flash_sale.Common.{ℕ, Text}
use flash_sale.Common.Int.{ℤ}
use flash_sale.Platform.{Platform}
use flash_sale.Effects.{Action, pure, ◌>>◌, redis_call}
use flash_sale.Redis.Keys.{available_key, reserved_key, meta_key, waitlist_key}
use flash_sale.Redis.Scripts

module _ (E : Platform) where
  unfoldable pub reserve : ℕ → Action E ℤ
  reserve sale = redis_call (Scripts.reserve E (available_key E sale) (reserved_key E sale))

  unfoldable pub release : ℕ → Action E (Unit {0})
  release sale = do
    redis_call (Scripts.release E (available_key E sale) (reserved_key E sale))
    pure tt

  unfoldable pub confirm : ℕ → Action E ℤ
  confirm sale =
      redis_call (Scripts.confirm E (reserved_key E sale) (available_key E sale) (meta_key E sale))

  unfoldable pub waitlist_join : ℕ → ℕ → ℕ → Action E ℤ
  waitlist_join sale user timestamp = redis_call (
      Scripts.waitlist_join E (available_key E sale) (waitlist_key E sale) (E.uuid_string user)
        timestamp)

  unfoldable pub waitlist_promote : ℕ → Action E Text
  waitlist_promote sale = redis_call (
      Scripts.waitlist_promote E (waitlist_key E sale) (available_key E sale) (reserved_key E sale))

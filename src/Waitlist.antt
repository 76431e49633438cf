-- ===== src/Waitlist.antt =====
-- internal/waitlist/service.go: the waitlist of a sale, a sorted set by the time of joining.
pub mod Entries
pub mod Joining
pub mod Position
pub mod Sync
use flash_sale.Common.{ℕ, Option, none, some, Bool, List, if◌then◌else◌, ◌==◌, length, Text}
use flash_sale.Common.Int.{ℤ, pos, negsuc, ◌+ℤ◌, eqb_ℤ}
use flash_sale.Platform.{Platform}
use flash_sale.Platform.Keyspace.{entries_at, Entry}
use flash_sale.Effects.{Action, Error, pure, fail, wrap, ◌>>=◌, ◌>>◌, redis_call}
use flash_sale.Redis.Script.{Script, zrank}
use flash_sale.Redis.Keys.{waitlist_key}
use flash_sale.Redis.Client

pub record JoinResponse : Type 0 where
  pub position : ℤ
  pub joined_at : ℕ

pub record PositionResponse : Type 0 where
  pub place : ℤ
  pub total_waiting : ℕ

module _ (E : Platform) where
  abbrev pub settle_join : ℕ → ℤ → Action E JoinResponse
  settle_join timestamp rank =
      if eqb_ℤ rank (negsuc 0)
      then fail Error.stock_available
      else (if eqb_ℤ rank (negsuc 1)
          then fail Error.already_waiting
          else pure (record { position = rank +ℤ pos 1; joined_at = timestamp }))

  -- Service.Join; the timestamp is the time of the call in seconds.
  unfoldable pub join : ℕ → ℕ → ℕ → Action E JoinResponse
  join sale user timestamp = do
    rank ← wrap Error.join_failed (Client.waitlist_join E sale user timestamp)
    settle_join timestamp rank

  abbrev pub sizes : Option (List Entry) → Option ℕ
  sizes none = none
  sizes (some es) = some (length es)

  -- ZCARD
  abbrev pub zcard : Text → Script E.Store ℕ
  zcard k s = (sizes (entries_at (E.lookup s k)), s)

  -- The nil reply of ZRANK is an error to its caller.
  abbrev pub settle_rank : ℕ → Option ℕ → Action E PositionResponse
  settle_rank sale none = fail Error.not_waiting
  settle_rank sale (some rank) = do
    total ← wrap Error.size_failed (redis_call (zcard (waitlist_key E sale)))
    pure (record { place = pos rank +ℤ pos 1; total_waiting = total })

  -- Service.GetPosition
  unfoldable pub get_position : ℕ → ℕ → Action E PositionResponse
  get_position sale user = do
    rank ← wrap Error.not_waiting (redis_call (zrank E (waitlist_key E sale) (E.uuid_string user)))
    settle_rank sale rank

  abbrev pub settle_leave : ℕ → Action E (Unit {0})
  settle_leave removed = if removed == 0 then fail Error.not_waiting else pure tt

  -- Service.Leave
  unfoldable pub leave : ℕ → ℕ → Action E (Unit {0})
  leave sale user = do
    removed ←
        wrap Error.leave_failed (redis_call (E.zrem (waitlist_key E sale) (E.uuid_string user)))
    settle_leave removed

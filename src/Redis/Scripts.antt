-- ===== src/Redis/Scripts.antt =====
-- The Lua scripts of internal/redis/scripts. KEYS and ARGV are the arguments; -1 and -2 are
-- `negsuc 0` and `negsuc 1`.
use flash_sale.Common.{ℕ, Option, none, some, List, [], ◌∷◌, Text, codes, if◌then◌else◌, not}
use flash_sale.Common.Int.{ℤ, pos, negsuc}
use flash_sale.Platform.{Platform}
use flash_sale.Platform.Keyspace.{Entry}
use flash_sale.Redis.Script.{Script, ◌>>=◌, ◌>>◌, reply, get, zscore, zrank, to_number, no_stock}

module _ (E : Platform) where
  -- reserve.lua
  unfoldable pub reserve : Text → Text → Script E.Store ℤ
  reserve available_key reserved_key = do
    available ← get E available_key
    if no_stock (to_number available)
        then reply (negsuc 0)
        else (do E.decr available_key; E.incr reserved_key; reply (pos 1))

  -- release.lua
  unfoldable pub release : Text → Text → Script E.Store ℤ
  release available_key reserved_key = do E.incr available_key; E.decr reserved_key; reply (pos 1)

  -- confirm.lua; it is passed the keys of the available count and of the metadata, and reads neither.
  unfoldable pub confirm : Text → Text → Text → Script E.Store ℤ
  confirm reserved_key available_key meta_key = do
    reserved ← get E reserved_key
    if no_stock (to_number reserved)
        then reply (negsuc 0)
        else (do E.decr reserved_key; reply (pos 1))

  -- A nil reply becomes a nil result, which the client cannot read as an integer.
  abbrev pub rank_reply : Option ℕ → Script E.Store ℤ
  rank_reply none s = (none, s)
  rank_reply (some r) s = (some (pos r), s)

  abbrev pub join_new : Text → Text → ℕ → Option ℕ → Script E.Store ℤ
  join_new waitlist_key user timestamp (some score) = reply (negsuc 1)
  join_new waitlist_key user timestamp none = do
    E.zadd waitlist_key timestamp user
    rank ← zrank E waitlist_key user
    rank_reply rank

  -- waitlist_join.lua
  unfoldable pub waitlist_join : Text → Text → Text → ℕ → Script E.Store ℤ
  waitlist_join available_key waitlist_key user timestamp = do
    available ← get E available_key
    if not (no_stock (to_number available)) then reply (negsuc 0) else (do
      existing ← zscore E waitlist_key user
      join_new waitlist_key user timestamp existing)

  abbrev pub promote_first : Text → Text → List Entry → Script E.Store Text
  promote_first available_key reserved_key [] = reply (codes "-1")
  promote_first available_key reserved_key (e ∷ es) = do
    E.decr available_key
    E.incr reserved_key
    reply e.member

  -- waitlist_promote.lua
  unfoldable pub waitlist_promote : Text → Text → Text → Script E.Store Text
  waitlist_promote waitlist_key available_key reserved_key = do
    available ← get E available_key
    if no_stock (to_number available)
        then reply (codes "-1")
        else (do popped ← E.zpopmin waitlist_key; promote_first available_key reserved_key popped)

-- ===== src/Redis/Keys.antt =====
-- The key names, as the services print them.
use flash_sale.Common.{ℕ, Text, codes, ◌++◌}
use flash_sale.Platform.{Platform}

module _ (E : Platform) where
  unfoldable pub sale_key : ℕ → Text → Text
  sale_key sale suffix = codes "sale:" ++ (E.uuid_string sale ++ suffix)

  unfoldable pub available_key : ℕ → Text
  unfolding sale_key
  available_key sale = sale_key sale (codes ":available")

  unfoldable pub reserved_key : ℕ → Text
  unfolding sale_key
  reserved_key sale = sale_key sale (codes ":reserved")

  unfoldable pub meta_key : ℕ → Text
  unfolding sale_key
  meta_key sale = sale_key sale (codes ":meta")

  unfoldable pub waitlist_key : ℕ → Text
  unfolding sale_key
  waitlist_key sale = sale_key sale (codes ":waitlist")

  unfoldable pub idempotency_key : ℕ → Text → Text
  unfolding sale_key
  idempotency_key sale key = sale_key sale (codes ":idempotency:" ++ key)

  unfoldable pub pubsub_channel : ℕ → Text
  unfolding sale_key
  pubsub_channel sale = sale_key sale (codes ":pubsub")

  unfoldable pub ttl_key : ℕ → Text
  ttl_key reservation = codes "reservation:" ++ (E.uuid_string reservation ++ codes ":ttl")

  unfoldable pub user_channel : ℕ → Text
  user_channel user = codes "user:" ++ (E.uuid_string user ++ codes ":events")

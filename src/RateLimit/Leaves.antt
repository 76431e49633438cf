-- ===== src/RateLimit/Leaves.antt =====
-- The rate limiter shares the Redis server with the sales, and leaves their counters alone.
use flash_sale.Common.{ℕ, ◌≢◌, refl, some, Text, arith, Option-cases, inl, inr, List}
use flash_sale.Common.Int.{ℤ, pos, ltb_ℤ, ◌-ℤ◌}
use flash_sale.Platform.{Platform}
use flash_sale.Platform.Keyspace.{Scalar, fields_at}
use flash_sale.Effects.Keeps.{Keeps, wrap-Keeps, bind-Keeps, pure-Keeps}
use flash_sale.Redis.Keys.{available_key, reserved_key, sale_key}
use flash_sale.Redis.Counters.{put_ne}
use flash_sale.Redis.Leaves.{Leaves, read-Leaves, bind-Leaves, if-Leaves}
use flash_sale.Reservation.Sync.{sync, redis_call-sync}
use flash_sale.RateLimit.{
  Limiter, ratelimit_key, spend, refill, open_bucket, token_bucket, allow, one_token, floor,
}

module _ (E : Platform) where
  available_key-ne-ratelimit_key : (b : ℕ) (user : Text) → available_key E b ≢ ratelimit_key user
  unfolding available_key sale_key ratelimit_key
  available_key-ne-ratelimit_key b user e = ground arith

  reserved_key-ne-ratelimit_key : (b : ℕ) (user : Text) → reserved_key E b ≢ ratelimit_key user
  unfolding reserved_key sale_key ratelimit_key
  reserved_key-ne-ratelimit_key b user e = ground arith

  hset-Leaves :
      (user : Text) (fs : List (Text × Scalar)) → Leaves E (E.hset (ratelimit_key user) fs)
  hset-Leaves user fs = record {
    same_at = λ s b. elim (Option-cases (fields_at (E.lookup s (ratelimit_key user)))) [
      | inl other_type ↦ rw (E.hset_error (ratelimit_key user) fs s other_type) (refl, refl)
      | inr (old, held) ↦ rw (E.lookup-hset (ratelimit_key user) fs s old held) (
        put_ne (ratelimit_key user) (available_key E b) _ (E.lookup s)
            (available_key-ne-ratelimit_key b user),
        put_ne (ratelimit_key user) (reserved_key E b) _ (E.lookup s)
            (reserved_key-ne-ratelimit_key b user),
      )
    ];
  }

  expire-Leaves : (key : Text) (seconds : ℕ) → Leaves E (E.expire key seconds)
  expire-Leaves key seconds = record {
    same_at = λ s b. rw (E.lookup-expire key seconds s) (refl, refl);
  }

  spend-Leaves : (user : Text) (now : ℕ) (n : ℤ) → Leaves E (spend E (ratelimit_key user) now n)
  unfolding spend
  spend-Leaves user now n = if-Leaves E (ltb_ℤ n (pos one_token)) _ _ (read-Leaves E _) (
      bind-Leaves E _ _ (hset-Leaves user _) λ _.
        bind-Leaves E _ _ (expire-Leaves (ratelimit_key user) 60)
          (λ _. read-Leaves E (λ s. some (floor (n -ℤ pos one_token)))))

  token_bucket-Leaves :
      (user : Text) (capacity rate now : ℕ)
      → Leaves E (token_bucket E (ratelimit_key user) capacity rate now)
  unfolding token_bucket
  token_bucket-Leaves user capacity rate now =
      bind-Leaves E (open_bucket E (ratelimit_key user) capacity now)
        (refill E (ratelimit_key user) capacity rate now) (read-Leaves E _)
        (λ p. spend-Leaves user now _)

  -- Limiter.Allow keeps the counters in step, under any network faults.
  pub allow-sync :
      (totals : ℕ → ℕ) (lim : Limiter) (user : Text) (now : ℕ)
      → Keeps (sync E totals) (allow E lim user now)
  unfolding allow
  allow-sync totals lim user now =
      bind-Keeps (sync E totals) _ _
        (wrap-Keeps (sync E totals) _ _
          (redis_call-sync E totals _ (token_bucket-Leaves user _ _ now)))
        (λ n. pure-Keeps (sync E totals) _)

-- ===== src/RateLimit.antt =====
-- internal/ratelimit/limiter.go and token_bucket.lua: a bucket of tokens for each user. Floats are exact
-- fractions here: tokens are counted in millionths, the rate in thousandths of a token per second,
-- so that a millisecond at a rate adds a whole number. The rounding of doubles is left out.
pub mod Bucket
pub mod Refines
pub mod Level
pub mod Paid
pub mod Bound
pub mod Leaves
use flash_sale.Common.{
  ℕ, ◌/◌, Bool, true, false, Option, none, some, List, [], ◌∷◌, ◌++◌, Text, codes, if◌then◌else◌,
}
use flash_sale.Common.Int.{ℤ, pos, negsuc, ◌+ℤ◌, ◌-ℤ◌, ltb_ℤ, eqb_ℤ, min_ℤ, scale}
use flash_sale.Platform.{Platform}
use flash_sale.Platform.Keyspace.{Scalar, num, fields_at, field_of}
use flash_sale.Effects.{Action, Error, pure, wrap, redis_call}
use flash_sale.Effects
use flash_sale.Redis.Script.{to_number, reply, ◌>>=◌, ◌>>◌}
use flash_sale.Redis.Script

-- The capacity is in millionths, the rate in thousandths per second.
pub record Limiter : Type 0 where
  pub capacity : ℕ
  pub rate_per_sec : ℕ

abbrev pub one_token : ℕ
one_token = 1000000

abbrev pub floor : ℤ → ℤ
floor (pos n) = pos (n / one_token)
floor (negsuc n) = negsuc (n / one_token)

-- What the script starts from: a full bucket where there is none. Arithmetic on a missing
-- `last_refill` is an error.
abbrev pub opening : ℕ → ℕ → Option ℤ → Option ℤ → Option (ℤ × ℤ)
opening capacity now none last = some (pos capacity, pos now)
opening capacity now (some tokens) none = none
opening capacity now (some tokens) (some last) = some (tokens, last)

abbrev pub field_number : Text → List (Text × Scalar) → Option ℤ
field_number k fs = to_number (field_of k fs)

abbrev pub bucket_fields : ℤ → ℤ → List (Text × Scalar)
bucket_fields tokens now = (codes "tokens", num tokens) ∷ (codes "last_refill", num now) ∷ []

module _ (E : Platform) where
  abbrev pub hmget_reply : ℕ → ℕ → Option (List (Text × Scalar)) → Option (ℤ × ℤ)
  hmget_reply capacity now none = none
  hmget_reply capacity now (some fs) =
      opening capacity now (field_number (codes "tokens") fs)
        (field_number (codes "last_refill") fs)

  -- HMGET of the two fields, and the defaults.
  abbrev pub open_bucket : Text → ℕ → ℕ → Script.Script E.Store (ℤ × ℤ)
  open_bucket key capacity now s = (hmget_reply capacity now (fields_at (E.lookup s key)), s)

  abbrev pub write_bucket : Text → ℕ → ℤ → Script.Script E.Store ℤ
  write_bucket key now tokens = do
    E.hset key (bucket_fields tokens (pos now))
    E.expire key 60
    reply (floor tokens)

  unfoldable pub spend : Text → ℕ → ℤ → Script.Script E.Store ℤ
  spend key now tokens =
      if ltb_ℤ tokens (pos one_token)
      then reply (negsuc 0)
      else write_bucket key now (tokens -ℤ pos one_token)

  abbrev pub refill : Text → ℕ → ℕ → ℕ → ℤ × ℤ → Script.Script E.Store ℤ
  refill key capacity rate now (tokens, last) =
      spend key now (min_ℤ (pos capacity) (tokens +ℤ scale rate (pos now -ℤ last)))

  -- token_bucket.lua
  unfoldable pub token_bucket : Text → ℕ → ℕ → ℕ → Script.Script E.Store ℤ
  token_bucket key capacity rate now = do
    opened ← open_bucket key capacity now
    refill key capacity rate now opened

unfoldable pub ratelimit_key : Text → Text
ratelimit_key user = codes "ratelimit:" ++ user

pub record Verdict : Type 0 where
  pub allowed : Bool
  pub remaining : ℤ

abbrev pub verdict : ℤ → Verdict
verdict remaining =
    if eqb_ℤ remaining (negsuc 0)
    then record { allowed = false; remaining = pos 0 }
    else record { allowed = true; remaining = remaining }

module _ (E : Platform) where
  -- Limiter.Allow; the time of the call is in milliseconds.
  unfoldable pub allow : Limiter → Text → ℕ → Action E Verdict
  allow lim user now =
      Effects.◌>>=◌
        (wrap Error.rate_limiter_failed
          (redis_call (token_bucket E (ratelimit_key user) lim.capacity lim.rate_per_sec now)))
        (λ remaining. pure (verdict remaining))

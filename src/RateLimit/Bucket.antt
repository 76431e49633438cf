-- ===== src/RateLimit/Bucket.antt =====
-- A token bucket as a pure machine, which token_bucket.lua is compared with.
use flash_sale.Common.{
  ℕ, ◌+◌, ◌-◌, ◌*◌, ◌≤◌, Bool, true, false, Option, none, some, if◌then◌else◌, ltb,
}
use flash_sale.RateLimit.{Limiter, one_token}

pub record Bucket : Type 0 where
  pub tokens : ℕ
  pub last_refill : ℕ

abbrev pub least : ℕ → ℕ → ℕ
least a b = if ltb b a then b else a

-- What the bucket holds at a time; where there is none, it is full.
abbrev pub level : Limiter → ℕ → Option Bucket → ℕ
level lim now none = lim.capacity
level lim now (some b) = least lim.capacity (b.tokens + lim.rate_per_sec * (now - b.last_refill))

-- A bucket is not from the future.
abbrev pub Past : ℕ → Option Bucket → Type 0
Past now none = Unit {0}
Past now (some b) = b.last_refill ≤ now

-- A request at a time is admitted if a whole token is there.
unfoldable pub admits : Limiter → ℕ → Option Bucket → Bool
admits lim now b = if ltb (level lim now b) one_token then false else true

unfoldable pub after : Limiter → ℕ → Option Bucket → Option Bucket
after lim now b =
    if ltb (level lim now b) one_token
    then b
    else some (record { tokens = level lim now b - one_token; last_refill = now })

-- ===== src/Tests/Limits.antt =====
-- The theorems on the rate limiter, each at a run.
use flash_sale.Common.{ℕ, ◌+◌, ◌-◌, ◌*◌, ◌≤◌, ◌≡◌, refl, none, Text, codes, arith}
use flash_sale.Reference.{memory, empty}
use flash_sale.Common.Int.{◌+ℤ◌, ◌-ℤ◌}
use flash_sale.Effects.{World, redis_call}
use flash_sale.RateLimit.{Limiter, one_token, ratelimit_key, token_bucket, spend, allow}
use flash_sale.RateLimit.Refines.{Bucketed, token_bucket-Bucketed}
use flash_sale.RateLimit.Bound.{begun, asked, admitted_bound}
use flash_sale.RateLimit.Paid.{admitted}
use flash_sale.Tests.Scene.{start}

-- The capacity and the rate of the default configuration.
abbrev pub limiter : Limiter
limiter = record { capacity = 10000000; rate_per_sec = 2000 }

abbrev alice : Text
alice = codes "alice"

token_bucket-Bucketed_example :
    Bucketed memory
      (ratelimit_key alice)
      limiter
      1500
      none
      empty
      (token_bucket memory (ratelimit_key alice) limiter.capacity limiter.rate_per_sec 1500 empty)
token_bucket-Bucketed_example =
    token_bucket-Bucketed memory (ratelimit_key alice) limiter 1500 none empty refl tt

abbrev once : World memory
unfolding allow
once = (allow memory limiter alice 1500 start).1

abbrev twice : World memory
unfolding allow
twice = (allow memory limiter alice 1600 once).1

abbrev admitted_twice : ℕ
unfolding allow
admitted_twice =
    0
    + admitted (allow memory limiter alice 1500 start).0
    + admitted (allow memory limiter alice 1600 once).0

two_admitted : admitted_twice ≡ 2
unfolding allow token_bucket redis_call spend ◌+ℤ◌ ◌-ℤ◌ ratelimit_key
two_admitted = refl

admitted_bound_example :
    one_token * admitted_twice ≤ limiter.capacity + limiter.rate_per_sec * (1600 - 1000)
unfolding allow admitted_twice
admitted_bound_example =
    admitted_bound memory limiter alice 1000 start refl (omega arith) admitted_twice 1600 twice
      (asked (asked begun 1500 (omega arith)) 1600 (omega arith))

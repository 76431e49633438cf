-- ===== src/RateLimit/Bound.antt =====
-- How many requests of one user the limiter lets through.
use flash_sale.Common.{ℕ, ◌+◌, ◌-◌, ◌*◌, ◌≤◌, Text, ◌≡◌, refl, ◌∙◌, Option, none, some, arith}
use flash_sale.Platform.{Platform}
use flash_sale.Effects.{World}
use flash_sale.RateLimit.{Limiter, one_token, ratelimit_key, allow}
use flash_sale.RateLimit.Level.{Stale, gains, level_later, Past-later, Stale-full}
use flash_sale.RateLimit.Refines.{Holds}
use flash_sale.RateLimit.Bucket.{Bucket, level, Past}
use flash_sale.RateLimit.Paid.{admitted, allow-Paid}

Holds_same :
    (E : Platform) (k : Text) (b : Option Bucket) (s s' : E.Store)
    → E.lookup s' k ≡ E.lookup s k
    → Holds E k b s
    → Holds E k b s'
Holds_same E k none s s' e h = e ∙ h
Holds_same E k (some b) s s' e h = e ∙ h

-- The calls of the limiter for one user up to a time, in the order of their times, with how many were
-- admitted: a call, under whatever the network does; the expiry of the key by Redis; and whatever
-- else writes to Redis or to the tables and leaves the key alone.
pub data Served (E : Platform) (lim : Limiter) (user : Text) (since : ℕ) (w : World E)
    : ℕ → ℕ → World E → Type 0 where
  begun : Served E lim user since w 0 since w
  asked :
      {n t : ℕ} {u : World E}
      → Served E lim user since w n t u
      → (now : ℕ) → t ≤ now
      → Served E lim user since w
          (n + admitted (allow E lim user now u).0)
          now
          (allow E lim user now u).1
  lapsed :
      {n t : ℕ} {u : World E}
      → Served E lim user since w n t u
      → (now : ℕ) (v : World E) → t ≤ now
      → E.lookup v.redis (ratelimit_key user) ≡ none
      → ((b : Bucket) → Holds E (ratelimit_key user) (some b) u.redis → Stale now (some b))
      → Served E lim user since w n now v
  elsewhere :
      {n t : ℕ} {u : World E}
      → Served E lim user since w n t u
      → (v : World E)
      → E.lookup v.redis (ratelimit_key user) ≡ E.lookup u.redis (ratelimit_key user)
      → Served E lim user since w n t v

module _ (E : Platform) (lim : Limiter) (user : Text) where
  abbrev key : Text
  key = ratelimit_key user

  -- What is left at a time, against what was there at first.
  record Budget (since : ℕ) (first : Option Bucket) (n t : ℕ) (s : E.Store) : Type 0 where
    bucket : Option Bucket
    held : Holds E key bucket s
    past : Past t bucket
    later : since ≤ t
    spent :
        one_token * n + level lim t bucket ≤ level lim since first + lim.rate_per_sec * (t - since)

  -- The key that vanishes held a bucket that has refilled.
  Stale-held :
      (now : ℕ) (b : Option Bucket) (u : World E)
      → lim.capacity ≤ lim.rate_per_sec * 60000
      → ((x : Bucket) → Holds E key (some x) u.redis → Stale now (some x))
      → Holds E key b u.redis
      → level lim now b ≡ lim.capacity
  Stale-held now none u fast stale held = refl
  Stale-held now (some x) u fast stale held = Stale-full lim now (some x) fast (stale x held)

  Served-Budget :
      (since : ℕ) (first : Option Bucket) {w : World E}
      → Holds E key first w.redis
      → Past since first
      → lim.capacity ≤ lim.rate_per_sec * 60000
      → {n t : ℕ} {u : World E} → Served E lim user since w n t u
      → Budget since first n t u.redis
  Served-Budget since first held past fast begun = record {
    bucket = first;
    held = held;
    past = past;
    later = omega arith;
    spent = omega arith;
  }
  Served-Budget since first held past fast (asked {n} {t} {u} path now le) =
      let h = Served-Budget since first held past fast path in
      let paid =
        allow-Paid E lim user now h.bucket u (Past-later t now h.bucket h.past le) h.held in
      record {
        bucket = paid.left;
        held = paid.held;
        past = paid.past;
        later = omega (arith, h.later);
        spent = omega (
          arith,
          h.spent,
          h.later,
          paid.pays,
          level_later lim t now h.bucket h.past le,
          gains lim.rate_per_sec since t now h.later le,
        );
      }
  Served-Budget since first held past fast (lapsed {n} {t} {u} path now v le gone stale) =
      let h = Served-Budget since first held past fast path in
      record {
        bucket = none;
        held = gone;
        past = tt;
        later = omega (arith, h.later);
        spent = omega (
          arith,
          h.spent,
          h.later,
          Stale-held now h.bucket u fast stale h.held,
          level_later lim t now h.bucket h.past le,
          gains lim.rate_per_sec since t now h.later le,
        );
      }
  Served-Budget since first held past fast (elsewhere {n} {t} {u} path v same) =
      let h = Served-Budget since first held past fast path in
      record {
        bucket = h.bucket;
        held = Holds_same E key h.bucket u.redis v.redis same h.held;
        past = h.past;
        later = h.later;
        spent = h.spent;
      }

  -- If an empty bucket refills within 60 seconds: from a key that holds no bucket, the requests of
  -- a user that the limiter has admitted by a time are at most its capacity and what its rate adds
  -- up to since, in whatever order calls under any network faults, expiries of the key after 60
  -- seconds, and other writes come, at times that do not go back.
  pub admitted_bound :
      (since : ℕ) (w : World E)
      → E.lookup w.redis (ratelimit_key user) ≡ none
      → lim.capacity ≤ lim.rate_per_sec * 60000
      → (n t : ℕ) (u : World E) → Served E lim user since w n t u
      → one_token * n ≤ lim.capacity + lim.rate_per_sec * (t - since)
  admitted_bound since w fresh fast n t u path =
      let h = Served-Budget since none fresh tt fast path in omega (arith, h.spent)

-- ===== src/RateLimit/Level.antt =====
-- How the level of a bucket moves with the time and with the requests.
use native.Mathlib.Nat.{mul-le-mul_left}
use flash_sale.Common.{
  ℕ, ◌+◌, ◌-◌, ◌*◌, ◌≤◌, ◌≡◌, refl, Bool, true, false, Option, none, some, arith, ltb, Bool-cases,
  inl, inr,
}
use flash_sale.RateLimit.{Limiter, one_token}
use flash_sale.RateLimit.Bucket.{Bucket, level, Past, admits, after}

abbrev pub one_if : Bool → ℕ
one_if true = 1
one_if false = 0

-- The bucket's key may vanish once it is 60 seconds old.
abbrev pub Stale : ℕ → Option Bucket → Type 0
Stale now none = Unit {0}
Stale now (some b) = b.last_refill + 60000 ≤ now

level-le-capacity : (lim : Limiter) (now : ℕ) (b : Option Bucket) → level lim now b ≤ lim.capacity
level-le-capacity lim now none = omega arith
level-le-capacity lim now (some b) = ground arith

-- Over a time that is split in two.
pub gains : (r l t now : ℕ) → l ≤ t → t ≤ now → r * (now - l) ≡ r * (t - l) + r * (now - t)
gains r l t now p q =
    let whole : now - l ≡ (t - l) + (now - t) = omega arith in rw whole (grind arith)

-- A bucket gains at most its rate in a time.
pub level_later :
    (lim : Limiter) (t now : ℕ) (b : Option Bucket)
    → Past t b
    → t ≤ now
    → level lim now b ≤ level lim t b + lim.rate_per_sec * (now - t)
level_later lim t now none past le = omega arith
level_later lim t now (some b) past le = ground (arith, gains lim.rate_per_sec b.last_refill t now)

pub after-Past :
    (lim : Limiter) (now : ℕ) (b : Option Bucket) → Past now b → Past now (after lim now b)
unfolding after
after-Past lim now b past = elim (Bool-cases (ltb (level lim now b) one_token)) [
  | inl short ↦ rw short past
  | inr enough ↦ rw enough (omega arith)
]

pub Past-later : (t now : ℕ) (b : Option Bucket) → Past t b → t ≤ now → Past now b
Past-later t now none p le = tt
Past-later t now (some b) p le = omega arith

-- A request costs a whole token if it is admitted.
pub after_pays :
    (lim : Limiter) (now : ℕ) (b : Option Bucket)
    → one_token * one_if (admits lim now b) + level lim now (after lim now b) ≤ level lim now b
unfolding after admits
after_pays lim now b = elim (Bool-cases (ltb (level lim now b) one_token)) [
  | inl short ↦ rw short (omega arith)
  | inr enough ↦ rw enough (ground arith)
]

pub Stale-full :
    (lim : Limiter) (now : ℕ) (b : Option Bucket)
    → lim.capacity ≤ lim.rate_per_sec * 60000
    → Stale now b
    → level lim now b ≡ lim.capacity
Stale-full lim now none fast stale = refl
Stale-full lim now (some b) fast stale =
    let long : 60000 ≤ now - b.last_refill = omega arith in
    let refill : lim.rate_per_sec * 60000 ≤ lim.rate_per_sec * (now - b.last_refill) =
      mul-le-mul_left lim.rate_per_sec long in
    ground arith

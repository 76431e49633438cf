-- ===== src/Redis/Counters.antt =====
-- What INCR, DECR, SET and PUBLISH do to the counter at one key and to the other keys.
use flash_sale.Common.{ℕ, ◌≡◌, ◌≢◌, Option, some, Text, same_refl, same_iff, arith}
use flash_sale.Common.Int.{ℤ, pos, ◌+ℤ◌, ◌-ℤ◌, ◌≤ℤ◌}
use flash_sale.Platform.{Platform}
use flash_sale.Platform.Keyspace.{Scalar, str, put, integer_at, int_max, int_min}

pub put_self {ℓ} : {A : Type ℓ} (k : Text) (v : A) (f : Text → Option A) → put k v f k ≡ some v
put_self k v f = rw (same_refl k)

pub put_ne {ℓ} : {A : Type ℓ} (k j : Text) (v : A) (f : Text → Option A) → j ≢ k → put k v f j ≡ f j
put_ne k j v f h = ground (arith, same_iff j k)

module _ (E : Platform) where
  -- The integer at a key, 0 where the key is absent.
  abbrev pub counter : E.Store → Text → Option ℤ
  counter s k = integer_at (E.lookup s k)

  module _ (k : Text) (s : E.Store) (n : ℤ) (held : counter s k ≡ some n) where
    pub counter-incr : n +ℤ pos 1 ≤ℤ int_max → counter (E.incr k s).1 k ≡ some (n +ℤ pos 1)
    counter-incr b = rw (E.lookup-incr k s n held b, same_refl k)

    pub lookup-incr_ne :
        (j : Text) → n +ℤ pos 1 ≤ℤ int_max → j ≢ k → E.lookup (E.incr k s).1 j ≡ E.lookup s j
    lookup-incr_ne j b h = rw (E.lookup-incr k s n held b) (put_ne k j _ (E.lookup s) h)

    pub counter-decr : int_min ≤ℤ n -ℤ pos 1 → counter (E.decr k s).1 k ≡ some (n -ℤ pos 1)
    counter-decr b = rw (E.lookup-decr k s n held b, same_refl k)

    pub lookup-decr_ne :
        (j : Text) → int_min ≤ℤ n -ℤ pos 1 → j ≢ k → E.lookup (E.decr k s).1 j ≡ E.lookup s j
    lookup-decr_ne j b h = rw (E.lookup-decr k s n held b) (put_ne k j _ (E.lookup s) h)

  pub lookup-set_ne :
      (k j : Text) (v : Scalar) (t : ℕ) (s : E.Store)
      → j ≢ k
      → E.lookup (E.set k v t s) j ≡ E.lookup s j
  lookup-set_ne k j v t s h = rw (E.lookup-set k v t s) (put_ne k j _ (E.lookup s) h)

  pub lookup-set_self :
      (k : Text) (v : Scalar) (t : ℕ) (s : E.Store) → E.lookup (E.set k v t s) k ≡ some (str v)
  lookup-set_self k v t s = rw (E.lookup-set k v t s) (put_self k (str v) (E.lookup s))

-- ===== src/Redis/Script.antt =====
-- A Lua script on the Redis server: commands in turn on the store, atomically. An error reply of a
-- command ends the script, and what it has written stays written.
use flash_sale.Common.{ℕ, Bool, true, Option, none, some, List, Text}
use flash_sale.Common.Int.{ℤ, pos, leb_ℤ}
use flash_sale.Platform.{Platform}
use flash_sale.Platform.Keyspace.{Scalar, num, text, Entry, get_at, entries_at, score_of, rank_of}

abbrev pub Script : Type 0 → Type 0 → Type 0
Script S A = S → Option A × S

infixl 5 ◌>>=◌ ◌>>◌
abbrev pub ◌>>=◌ : {S A B : Type 0} → Script S A → (A → Script S B) → Script S B
◌>>=◌ m f s = let (r, s') = m s in elim r [ some a ↦ f a s' | none ↦ (none, s') ]

abbrev pub ◌>>◌ : {S A B : Type 0} → Script S A → Script S B → Script S B
m >> k = m >>= λ _. k

abbrev pub reply : {S A : Type 0} → A → Script S A
reply a s = (some a, s)

abbrev scores : Text → Option (List Entry) → Option (Option ℕ)
scores m none = none
scores m (some es) = some (score_of m es)

abbrev ranks : Text → Option (List Entry) → Option (Option ℕ)
ranks m none = none
ranks m (some es) = some (rank_of m es)

module _ (E : Platform) where
  abbrev pub get : Text → Script E.Store (Option Scalar)
  get k s = (get_at (E.lookup s k), s)

  abbrev pub zscore : Text → Text → Script E.Store (Option ℕ)
  zscore k m s = (scores m (entries_at (E.lookup s k)), s)

  abbrev pub zrank : Text → Text → Script E.Store (Option ℕ)
  zrank k m s = (ranks m (entries_at (E.lookup s k)), s)

-- `tonumber` of a reply.
abbrev pub to_number : Option Scalar → Option ℤ
to_number none = none
to_number (some (num n)) = some n
to_number (some (text t)) = none

-- `not n or n <= 0`
abbrev pub no_stock : Option ℤ → Bool
no_stock none = true
no_stock (some n) = leb_ℤ n (pos 0)

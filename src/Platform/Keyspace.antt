-- ===== src/Platform/Keyspace.antt =====
-- What a Redis key holds, and the documented effect of the commands on it, as functions of the map
-- from keys to values. These state the laws of the commands; the commands are the server's.
use flash_sale.Common.{
  ℕ, suc, Bool, Option, none, some, List, [], ◌∷◌, Text, same, lex_lt, ltb, ◌==◌, if◌then◌else◌,
  ◌&&◌, ◌||◌,
}
use flash_sale.Common.Int.{ℤ, pos, negsuc}

-- A string value; one that is the decimal form of a 64-bit integer is that integer.
pub data Scalar : Type 0 where
  num : ℤ → Scalar
  text : Text → Scalar

-- An entry of a sorted set.
pub record Entry : Type 0 where
  pub member : Text
  pub score : ℕ

pub data Value : Type 0 where
  str : Scalar → Value
  zset : List Entry → Value
  hash : List (Text × Scalar) → Value

abbrev pub int_max : ℤ
int_max = pos 9223372036854775807

abbrev pub int_min : ℤ
int_min = negsuc 9223372036854775807

abbrev pub put {ℓ} : {A : Type ℓ} → Text → A → (Text → Option A) → Text → Option A
put k v f j = if same j k then some v else f j

abbrev pub clear {ℓ} : {A : Type ℓ} → Text → (Text → Option A) → Text → Option A
clear k f j = if same j k then none else f j

-- A sorted set that has become empty is no longer a key.
abbrev pub put_entries : Text → List Entry → (Text → Option Value) → Text → Option Value
put_entries k [] f = clear k f
put_entries k (e ∷ es) f = put k (zset (e ∷ es)) f

-- The integer that INCR and DECR start from: 0 at a key that is absent, `none` at another type.
abbrev pub integer_at : Option Value → Option ℤ
integer_at none = some (pos 0)
integer_at (some (str (num n))) = some n
integer_at (some (str (text t))) = none
integer_at (some (zset es)) = none
integer_at (some (hash fs)) = none

-- The entries of a sorted set in rank order; an absent key is an empty set.
abbrev pub entries_at : Option Value → Option (List Entry)
entries_at none = some []
entries_at (some (str v)) = none
entries_at (some (zset es)) = some es
entries_at (some (hash fs)) = none

-- What GET replies: the outer `none` is an error, the inner one the nil reply.
abbrev pub get_at : Option Value → Option (Option Scalar)
get_at none = some none
get_at (some (str v)) = some (some v)
get_at (some (zset es)) = none
get_at (some (hash fs)) = none

-- Rank order: by score, then by member.
abbrev pub before : Entry → Entry → Bool
before d e = ltb d.score e.score || (d.score == e.score && lex_lt d.member e.member)

abbrev pub insert_entry : Entry → List Entry → List Entry
insert_entry e [] = e ∷ []
insert_entry e (d ∷ es) = if before e d then e ∷ d ∷ es else d ∷ insert_entry e es

abbrev pub remove_member : Text → List Entry → List Entry
remove_member m [] = []
remove_member m (e ∷ es) = if same e.member m then es else e ∷ remove_member m es

abbrev pub score_of : Text → List Entry → Option ℕ
score_of m [] = none
score_of m (e ∷ es) = if same e.member m then some e.score else score_of m es

abbrev pub next_rank : Option ℕ → Option ℕ
next_rank none = none
next_rank (some r) = some (suc r)

abbrev pub rank_of : Text → List Entry → Option ℕ
rank_of m [] = none
rank_of m (e ∷ es) = if same e.member m then some 0 else next_rank (rank_of m es)

-- The fields of a hash; an absent key is an empty hash.
abbrev pub fields_at : Option Value → Option (List (Text × Scalar))
fields_at none = some []
fields_at (some (str v)) = none
fields_at (some (zset es)) = none
fields_at (some (hash fs)) = some fs

abbrev pub set_field : Text × Scalar → List (Text × Scalar) → List (Text × Scalar)
set_field f [] = f ∷ []
set_field f (g ∷ gs) = if same g.0 f.0 then f ∷ gs else g ∷ set_field f gs

abbrev pub set_fields : List (Text × Scalar) → List (Text × Scalar) → List (Text × Scalar)
set_fields [] old = old
set_fields (f ∷ fs) old = set_fields fs (set_field f old)

abbrev pub field_of : Text → List (Text × Scalar) → Option Scalar
field_of k [] = none
field_of k (f ∷ fs) = if same f.0 k then some f.1 else field_of k fs

-- ===== src/Platform.antt =====
-- The services that the program calls and does not contain: the Redis server, as the commands that
-- the scripts and the services issue, with the documented effect of each command on the keyspace;
-- and the UUID library, as the printing and parsing of identifiers. An identifier is its value as a
-- number. Reading commands (GET, ZSCORE, ZRANK, ZCARD) are functions of what `lookup` reports.
pub mod Keyspace
use flash_sale.Common.{
  ℕ, ◌≡◌, ◌≢◌, Bool, false, holds_code, Option, none, some, List, [], ◌∷◌, Text, length,
  if◌then◌else◌, ◌==◌, ◌-◌,
}
use flash_sale.Common.Int.{ℤ, pos, ◌+ℤ◌, ◌-ℤ◌, ◌≤ℤ◌}
use flash_sale.Models.{Event}
use Keyspace.{
  Scalar, num, Entry, Value, str, put, put_entries, integer_at, entries_at, int_max, int_min,
  insert_entry, remove_member, fields_at, set_fields, hash,
}

-- Each command takes the store and gives its reply, `none` for an error reply, and the new store.
pub record Platform : Type 1 where
  pub Store : Type 0
  pub lookup : Store → Text → Option Value
  pub ttl : Store → Text → Option ℕ
  -- SET key value with an expiry in seconds, 0 for no expiry
  pub set : Text → Scalar → ℕ → Store → Store
  pub incr : Text → Store → Option ℤ × Store
  pub decr : Text → Store → Option ℤ × Store
  -- ZADD key score member
  pub zadd : Text → ℕ → Text → Store → Option ℕ × Store
  -- ZPOPMIN key 1
  pub zpopmin : Text → Store → Option (List Entry) × Store
  pub zrem : Text → Text → Store → Option ℕ × Store
  -- HSET key field value …
  pub hset : Text → List (Text × Scalar) → Store → Option ℕ × Store
  -- EXPIRE key seconds
  pub expire : Text → ℕ → Store → Option ℕ × Store
  pub publish : Text → Event → Store → Store
  -- uuid.UUID.String and uuid.Parse
  pub uuid_string : ℕ → Text
  pub parse_uuid : Text → Option ℕ
  pub lookup-set :
      (k : Text) (v : Scalar) (t : ℕ) (s : Store) → lookup (set k v t s) ≡ put k (str v) (lookup s)
  pub ttl-set_self :
      (k : Text) (v : Scalar) (t : ℕ) (s : Store)
      → ttl (set k v t s) k ≡ (if t == 0 then none else some t)
  pub ttl-set_ne :
      (k j : Text) (v : Scalar) (t : ℕ) (s : Store) → j ≢ k → ttl (set k v t s) j ≡ ttl s j
  pub ttl-publish :
      (channel : Text) (event : Event) (s : Store) → ttl (publish channel event s) ≡ ttl s
  pub incr_reply :
      (k : Text) (s : Store) (n : ℤ)
      → integer_at (lookup s k) ≡ some n
      → n +ℤ pos 1 ≤ℤ int_max
      → (incr k s).0 ≡ some (n +ℤ pos 1)
  pub lookup-incr :
      (k : Text) (s : Store) (n : ℤ)
      → integer_at (lookup s k) ≡ some n
      → n +ℤ pos 1 ≤ℤ int_max
      → lookup (incr k s).1 ≡ put k (str (num (n +ℤ pos 1))) (lookup s)
  pub decr_reply :
      (k : Text) (s : Store) (n : ℤ)
      → integer_at (lookup s k) ≡ some n
      → int_min ≤ℤ n -ℤ pos 1
      → (decr k s).0 ≡ some (n -ℤ pos 1)
  pub lookup-decr :
      (k : Text) (s : Store) (n : ℤ)
      → integer_at (lookup s k) ≡ some n
      → int_min ≤ℤ n -ℤ pos 1
      → lookup (decr k s).1 ≡ put k (str (num (n -ℤ pos 1))) (lookup s)
  pub zadd_reply :
      (k : Text) (sc : ℕ) (m : Text) (s : Store) (es : List Entry)
      → entries_at (lookup s k) ≡ some es
      → (zadd k sc m s).0 ≢ none
  pub lookup-zadd :
      (k : Text) (sc : ℕ) (m : Text) (s : Store) (es : List Entry)
      → entries_at (lookup s k) ≡ some es
      → lookup (zadd k sc m s).1
        ≡ put_entries k
            (insert_entry (record { member = m; score = sc }) (remove_member m es))
            (lookup s)
  pub zpopmin_empty :
      (k : Text) (s : Store) → entries_at (lookup s k) ≡ some [] → zpopmin k s ≡ (some [], s)
  pub zpopmin_reply :
      (k : Text) (s : Store) (e : Entry) (es : List Entry)
      → entries_at (lookup s k) ≡ some (e ∷ es)
      → (zpopmin k s).0 ≡ some (e ∷ [])
  pub lookup-zpopmin :
      (k : Text) (s : Store) (e : Entry) (es : List Entry)
      → entries_at (lookup s k) ≡ some (e ∷ es)
      → lookup (zpopmin k s).1 ≡ put_entries k es (lookup s)
  pub zrem_reply :
      (k m : Text) (s : Store) (es : List Entry)
      → entries_at (lookup s k) ≡ some es
      → (zrem k m s).0 ≡ some (length es - length (remove_member m es))
  pub lookup-zrem :
      (k m : Text) (s : Store) (es : List Entry)
      → entries_at (lookup s k) ≡ some es
      → lookup (zrem k m s).1 ≡ put_entries k (remove_member m es) (lookup s)
  -- error replies, at a key of another type
  pub zadd_error :
      (k : Text) (sc : ℕ) (m : Text) (s : Store)
      → entries_at (lookup s k) ≡ none
      → zadd k sc m s ≡ (none, s)
  pub zrem_error :
      (k m : Text) (s : Store) → entries_at (lookup s k) ≡ none → zrem k m s ≡ (none, s)
  pub hset_reply :
      (k : Text) (fs : List (Text × Scalar)) (s : Store) (old : List (Text × Scalar))
      → fields_at (lookup s k) ≡ some old
      → (hset k fs s).0 ≢ none
  pub lookup-hset :
      (k : Text) (fs : List (Text × Scalar)) (s : Store) (old : List (Text × Scalar))
      → fields_at (lookup s k) ≡ some old
      → lookup (hset k fs s).1 ≡ put k (hash (set_fields fs old)) (lookup s)
  -- an error reply, at a key of another type
  pub hset_error :
      (k : Text) (fs : List (Text × Scalar)) (s : Store)
      → fields_at (lookup s k) ≡ none
      → hset k fs s ≡ (none, s)
  pub expire_reply : (k : Text) (t : ℕ) (s : Store) → (expire k t s).0 ≢ none
  pub lookup-expire : (k : Text) (t : ℕ) (s : Store) → lookup (expire k t s).1 ≡ lookup s
  pub ttl-expire_self :
      (k : Text) (t : ℕ) (s : Store) → lookup s k ≢ none → ttl (expire k t s).1 k ≡ some t
  pub lookup-publish :
      (channel : Text) (event : Event) (s : Store) → lookup (publish channel event s) ≡ lookup s
  pub parse-uuid_string : (u : ℕ) → parse_uuid (uuid_string u) ≡ some u
  pub length-uuid_string : (u : ℕ) → length (uuid_string u) ≡ 36
  -- An identifier is printed in hexadecimal digits and dashes.
  pub uuid_string_no_colon : (u : ℕ) → holds_code 58 (uuid_string u) ≡ false

-- ===== src/Reference.antt =====
-- A platform that meets every law: the keyspace and the expiries as functions of the key, and an
-- identifier printed as 36 codes of which the first is its value and 100, and also read from that code
-- alone. The witnesses run on it.
use flash_sale.Common.{
  ◌+◌, ◌&&◌, ◌||◌, leb, holds_code, ℕ, ◌-◌, ◌≡◌, refl, ◌≢◌, false, Option, none, some, List, [],
  ◌∷◌, Text, same, same_refl, length, if◌then◌else◌, ◌==◌, arith, same_iff,
}
use flash_sale.Common.Int.{ℤ, pos, ◌+ℤ◌, ◌-ℤ◌}
use flash_sale.Platform.{Platform}
use flash_sale.Platform.Keyspace.{
  Scalar, num, Entry, Value, str, put, clear, put_entries, integer_at, entries_at, insert_entry,
  remove_member, fields_at, set_fields, hash,
}

pub record Memory : Type 0 where
  pub keys : Text → Option Value
  pub expiry : Text → Option ℕ

abbrev pub empty : Memory
empty = record { keys = λ k. none; expiry = λ k. none }

abbrev set_key : Text → Scalar → ℕ → Memory → Memory
set_key k v t s = record s {
  keys = put k (str v) s.keys;
  expiry = if t == 0 then clear k s.expiry else put k t s.expiry;
}

abbrev write : Text → Option ℤ → Memory → Option ℤ × Memory
write k none s = (none, s)
write k (some n) s = (some n, record s { keys = put k (str (num n)) s.keys })

abbrev shift : (ℤ → ℤ) → Option ℤ → Option ℤ
shift f none = none
shift f (some n) = some (f n)

abbrev incr_key : Text → Memory → Option ℤ × Memory
incr_key k s = write k (shift (λ n. n +ℤ pos 1) (integer_at (s.keys k))) s

abbrev decr_key : Text → Memory → Option ℤ × Memory
decr_key k s = write k (shift (λ n. n -ℤ pos 1) (integer_at (s.keys k))) s

abbrev with_entries {ℓ} :
    {A : Type ℓ}
    → Text
    → Option (List Entry)
    → (List Entry → A × List Entry)
    → Memory
    → Option A × Memory
with_entries k none f s = (none, s)
with_entries k (some es) f s =
    let (a, rest) = f es in (some a, record s { keys = put_entries k rest s.keys })

abbrev add_entry : ℕ → Text → List Entry → ℕ × List Entry
add_entry sc m es =
    let kept = remove_member m es in
    (1 - (length es - length kept), insert_entry (record { member = m; score = sc }) kept)

abbrev drop_entry : Text → List Entry → ℕ × List Entry
drop_entry m es = let kept = remove_member m es in (length es - length kept, kept)

abbrev pop_entry : Text → Option (List Entry) → Memory → Option (List Entry) × Memory
pop_entry k none s = (none, s)
pop_entry k (some []) s = (some [], s)
pop_entry k (some (e ∷ es)) s = (some (e ∷ []), record s { keys = put_entries k es s.keys })

abbrev set_hash :
    Text → List (Text × Scalar) → Option (List (Text × Scalar)) → Memory → Option ℕ × Memory
set_hash k fs none s = (none, s)
set_hash k fs (some old) s =
    (some (length fs), record s { keys = put k (hash (set_fields fs old)) s.keys })

-- A missing key gets no expiry.
abbrev arm : Text → ℕ → Option Value → Memory → Option ℕ × Memory
arm k t none s = (some 0, s)
arm k t (some v) s = (some 1, record s { expiry = put k t s.expiry })

abbrev padding : Text
padding =
    0 ∷ 0 ∷ 0 ∷ 0 ∷ 0 ∷ 0 ∷ 0 ∷ 0 ∷ 0 ∷ 0 ∷ 0 ∷ 0 ∷ 0 ∷ 0 ∷ 0 ∷ 0 ∷ 0 ∷ 0 ∷ 0 ∷ 0 ∷ 0 ∷ 0 ∷ 0 ∷ 0
    ∷ 0 ∷ 0 ∷ 0 ∷ 0 ∷ 0 ∷ 0 ∷ 0 ∷ 0 ∷ 0 ∷ 0 ∷ 0 ∷ []

abbrev print_id : ℕ → Text
print_id u = (u + 100) ∷ padding

abbrev parse_id : Text → Option ℕ
parse_id [] = none
parse_id (c ∷ t) = if (same t padding || same t []) && leb 100 c then some (c - 100) else none

pub some-ne-none {ℓ} : {A : Type ℓ} {a : A} → some a ≢ none
some-ne-none e = cc

pub ttl_self :
    (k : Text) (v : Scalar) (t : ℕ) (s : Memory)
    → (set_key k v t s).expiry k ≡ (if t == 0 then none else some t)
ttl_self k v t s = ground (arith, same_refl k)

pub ttl_ne :
    (k j : Text) (v : Scalar) (t : ℕ) (s : Memory) → j ≢ k → (set_key k v t s).expiry j ≡ s.expiry j
ttl_ne k j v t s h = ground (arith, same_iff j k)

pub parse-print_id : (u : ℕ) → parse_id (print_id u) ≡ some u
parse-print_id u = ground arith

pub print_id-no_colon : (u : ℕ) → holds_code 58 (print_id u) ≡ false
print_id-no_colon u = ground arith

pub arm_reply : (k : Text) (t : ℕ) (o : Option Value) (s : Memory) → (arm k t o s).0 ≢ none
arm_reply k t none s = some-ne-none
arm_reply k t (some v) s = some-ne-none

pub keys-arm : (k : Text) (t : ℕ) (o : Option Value) (s : Memory) → (arm k t o s).1.keys ≡ s.keys
keys-arm k t none s = refl
keys-arm k t (some v) s = refl

pub expiry-arm_self :
    (k : Text) (t : ℕ) (o : Option Value) (s : Memory)
    → o ≢ none
    → (arm k t o s).1.expiry k ≡ some t
expiry-arm_self k t none s h = absurd (h refl)
expiry-arm_self k t (some v) s h = rw (same_refl k)

abbrev pub memory : Platform
memory = record {
  Store = Memory;
  lookup = λ s. s.keys;
  ttl = λ s. s.expiry;
  set = set_key;
  incr = incr_key;
  decr = decr_key;
  zadd = λ k sc m s. with_entries k (entries_at (s.keys k)) (add_entry sc m) s;
  zpopmin = λ k s. pop_entry k (entries_at (s.keys k)) s;
  zrem = λ k m s. with_entries k (entries_at (s.keys k)) (drop_entry m) s;
  hset = λ k fs s. set_hash k fs (fields_at (s.keys k)) s;
  expire = λ k t s. arm k t (s.keys k) s;
  publish = λ c p s. s;
  uuid_string = print_id;
  parse_uuid = parse_id;
  lookup-set = λ k v t s. refl;
  ttl-set_self = ttl_self;
  ttl-set_ne = ttl_ne;
  expire_reply = λ k t s. arm_reply k t (s.keys k) s;
  lookup-expire = λ k t s. keys-arm k t (s.keys k) s;
  ttl-expire_self = λ k t s h. expiry-arm_self k t (s.keys k) s h;
  lookup-publish = λ c p s. refl;
  ttl-publish = λ c p s. refl;
  incr_reply = λ k s n h b. rw h;
  lookup-incr = λ k s n h b. rw h;
  decr_reply = λ k s n h b. rw h;
  lookup-decr = λ k s n h b. rw h;
  zadd_reply = λ k sc m s es h. rw h some-ne-none;
  lookup-zadd = λ k sc m s es h. rw h;
  zpopmin_empty = λ k s h. rw h;
  zpopmin_reply = λ k s e es h. rw h;
  lookup-zpopmin = λ k s e es h. rw h;
  zrem_reply = λ k m s es h. rw h;
  lookup-zrem = λ k m s es h. rw h;
  zadd_error = λ k sc m s h. rw h;
  zrem_error = λ k m s h. rw h;
  hset_reply = λ k fs s old h. rw h some-ne-none;
  lookup-hset = λ k fs s old h. rw h;
  hset_error = λ k fs s h. rw h;
  parse-uuid_string = parse-print_id;
  uuid_string_no_colon = print_id-no_colon;
  length-uuid_string = λ u. refl;
}

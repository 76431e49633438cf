-- ===== src/Redis/Stock.antt =====
-- What the stock scripts do to the two counters of a sale, and that they touch no other key.
use flash_sale.Common.{◌≡◌, ◌≢◌, refl, ap, ◌∙◌, Option, some, none, Text, true, false, arith}
use flash_sale.Common.Int.{ℤ, pos, negsuc, ◌+ℤ◌, ◌-ℤ◌, ◌≤ℤ◌, int_laws}
use flash_sale.Platform.{Platform}
use flash_sale.Platform.Keyspace.{
  int_max, int_min, integer_at, get_at, Value, Scalar, str, num, put, text, zset, hash,
}
use flash_sale.Redis.Script.{◌>>=◌, ◌>>◌, to_number, no_stock}
use flash_sale.Redis.Scripts.{reserve, release, confirm}
use flash_sale.Redis.Counters.{counter, lookup-incr_ne, lookup-decr_ne}

-- A key map in which two keys hold the counters of a sale.
abbrev pub stocked : Text → ℤ → Text → ℤ → (Text → Option Value) → Text → Option Value
stocked ka a kr r f = put kr (str (num r)) (put ka (str (num a)) f)

pub get_positive :
    (v : Option Value) (n : ℤ) → integer_at v ≡ some n → pos 1 ≤ℤ n → get_at v ≡ some (some (num n))
get_positive none n h p = ground arith
get_positive (some (str (num m))) n h p = ground arith
get_positive (some (str (text t))) n h p = cc
get_positive (some (zset es)) n h p = cc
get_positive (some (hash fs)) n h p = cc

-- Where the counter is zero or less, the script sees no stock.
pub get_spent :
    (v : Option Value) (n : ℤ)
    → integer_at v ≡ some n
    → n ≤ℤ pos 0
    → (x : Option Scalar) × (get_at v ≡ some x) × (no_stock (to_number x) ≡ true)
get_spent none n h p = (none, refl, refl)
get_spent (some (str (num m))) n h p = (some (num m), refl, ground arith)
get_spent (some (str (text t))) n h p = cc
get_spent (some (zset es)) n h p = cc
get_spent (some (hash fs)) n h p = cc

pub some_stock : (n : ℤ) → pos 1 ≤ℤ n → no_stock (some n) ≡ false
some_stock n h = ground arith

module _ (E : Platform) (ka kr : Text) (s : E.Store) (a r : ℤ) where
  module _ (apart : kr ≢ ka) (ha : counter E s ka ≡ some a) (hr : counter E s kr ≡ some r) where
    -- DECR at one key and then INCR at the other.
    pub decr_incr :
        int_min ≤ℤ a -ℤ pos 1
        → r +ℤ pos 1 ≤ℤ int_max
        → let s' = (E.decr ka s).1 in
          ((E.decr ka s).0 ≡ some (a -ℤ pos 1))
          × ((E.incr kr s').0 ≡ some (r +ℤ pos 1))
          × (E.lookup (E.incr kr s').1 ≡ stocked ka (a -ℤ pos 1) kr (r +ℤ pos 1) (E.lookup s))
    decr_incr ba br =
        let held : counter E (E.decr ka s).1 kr ≡ some r =
          ap integer_at (lookup-decr_ne E ka s a ha kr ba apart) ∙ hr in
        (
          E.decr_reply ka s a ha ba,
          E.incr_reply kr (E.decr ka s).1 r held br,
          E.lookup-incr kr (E.decr ka s).1 r held br
              ∙ ap (put kr (str (num (r +ℤ pos 1)))) (E.lookup-decr ka s a ha ba),
        )

    pub incr_decr :
        a +ℤ pos 1 ≤ℤ int_max
        → int_min ≤ℤ r -ℤ pos 1
        → let s' = (E.incr ka s).1 in
          ((E.incr ka s).0 ≡ some (a +ℤ pos 1))
          × ((E.decr kr s').0 ≡ some (r -ℤ pos 1))
          × (E.lookup (E.decr kr s').1 ≡ stocked ka (a +ℤ pos 1) kr (r -ℤ pos 1) (E.lookup s))
    incr_decr ba br =
        let held : counter E (E.incr ka s).1 kr ≡ some r =
          ap integer_at (lookup-incr_ne E ka s a ha kr ba apart) ∙ hr in
        (
          E.incr_reply ka s a ha ba,
          E.decr_reply kr (E.incr ka s).1 r held br,
          E.lookup-decr kr (E.incr ka s).1 r held br
              ∙ ap (put kr (str (num (r -ℤ pos 1)))) (E.lookup-incr ka s a ha ba),
        )

    -- With stock left, the script moves one unit from available to reserved.
    pub reserve_takes :
        pos 1 ≤ℤ a
        → r +ℤ pos 1 ≤ℤ int_max
        → let (v, s') = reserve E ka kr s in
          (v ≡ some (pos 1)) × (E.lookup s' ≡ stocked ka (a -ℤ pos 1) kr (r +ℤ pos 1) (E.lookup s))
    unfolding reserve
    reserve_takes stock br =
        let (e, f, g) = decr_incr (omega int_laws) br in
        rw (get_positive (E.lookup s ka) a ha stock, some_stock a stock, e, f, reserve, ◌>>=◌, ◌>>◌)
          (refl, g)

    -- The script puts one unit back, whatever the counters are.
    pub release_returns :
        a +ℤ pos 1 ≤ℤ int_max
        → int_min ≤ℤ r -ℤ pos 1
        → let (v, s') = release E ka kr s in
          (v ≡ some (pos 1)) × (E.lookup s' ≡ stocked ka (a +ℤ pos 1) kr (r -ℤ pos 1) (E.lookup s))
    unfolding release
    release_returns ba br =
        let (e, f, g) = incr_decr ba br in rw (e, f, release, ◌>>=◌, ◌>>◌) (refl, g)

  -- With no stock left, the script answers -1 and writes nothing.
  pub reserve_sold_out :
      counter E s ka ≡ some a → a ≤ℤ pos 0 → reserve E ka kr s ≡ (some (negsuc 0), s)
  unfolding reserve
  reserve_sold_out ha none_left =
      let (x, e, f) = get_spent (E.lookup s ka) a ha none_left in rw (e, f, reserve, ◌>>=◌, ◌>>◌)

  -- With a reservation counted, the script takes it off the reserved counter.
  pub confirm_takes :
      (meta : Text)
      → counter E s kr ≡ some r
      → pos 1 ≤ℤ r
      → let (v, s') = confirm E kr ka meta s in
        (v ≡ some (pos 1)) × (E.lookup s' ≡ put kr (str (num (r -ℤ pos 1))) (E.lookup s))
  unfolding confirm
  confirm_takes meta hr stock =
      rw
        (
          get_positive (E.lookup s kr) r hr stock,
          some_stock r stock,
          E.decr_reply kr s r hr (omega int_laws),
          confirm,
          ◌>>=◌,
          ◌>>◌,
        )
        (refl, E.lookup-decr kr s r hr (omega int_laws))

  -- With none counted, it answers -1 and writes nothing.
  pub confirm_refuses :
      (meta : Text)
      → counter E s kr ≡ some r
      → r ≤ℤ pos 0
      → confirm E kr ka meta s ≡ (some (negsuc 0), s)
  unfolding confirm
  confirm_refuses meta hr none_left =
      let (x, e, f) = get_spent (E.lookup s kr) r hr none_left in rw (e, f, confirm, ◌>>=◌, ◌>>◌)

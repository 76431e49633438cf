-- ===== src/Redis/Setting.antt =====
-- Both counters of a sale written with SET, as CreateSale and the reconcilers do.
use flash_sale.Common.{ℕ, ◌≡◌, ◌≢◌, sym, ap, ◌∙◌, some}
use flash_sale.Common.Int.{ℤ}
use flash_sale.Platform.{Platform}
use flash_sale.Platform.Keyspace.{num, integer_at}
use flash_sale.Redis.Keys.{available_key, reserved_key}
use flash_sale.Redis.Apart.{
  reserved_key-ne-available_key, available_key-injective, reserved_key-injective,
}
use flash_sale.Redis.Counters.{counter, lookup-set_ne, lookup-set_self}
use flash_sale.Redis.Counts.{SameAt}

module _ (E : Platform) (sale : ℕ) (a r : ℤ) (s : E.Store) where
  abbrev pub set_available : E.Store
  set_available = E.set (available_key E sale) (num a) 0 s

  abbrev pub set_pair : E.Store
  set_pair = E.set (reserved_key E sale) (num r) 0 set_available

  pub set_pair-SameAt : (b : ℕ) → b ≢ sale → SameAt E b s set_pair
  set_pair-SameAt b h =
      let ka = available_key E sale in
      let kr = reserved_key E sale in
      (
        lookup-set_ne E kr (available_key E b) (num r) 0 set_available
              (λ x. reserved_key-ne-available_key E sale b (sym x))
            ∙ lookup-set_ne E ka (available_key E b) (num a) 0 s
                (λ x. h (available_key-injective E b sale x)),
        lookup-set_ne E kr (reserved_key E b) (num r) 0 set_available
              (λ x. h (reserved_key-injective E b sale x))
            ∙ lookup-set_ne E ka (reserved_key E b) (num a) 0 s
                (reserved_key-ne-available_key E b sale),
      )

  pub available-set_pair : counter E set_pair (available_key E sale) ≡ some a
  available-set_pair = ap integer_at (
      lookup-set_ne E (reserved_key E sale) (available_key E sale) (num r) 0 set_available
        (λ x. reserved_key-ne-available_key E sale sale (sym x))
      ∙ lookup-set_self E (available_key E sale) (num a) 0 s)

  pub reserved-set_pair : counter E set_pair (reserved_key E sale) ≡ some r
  reserved-set_pair =
      ap integer_at (lookup-set_self E (reserved_key E sale) (num r) 0 set_available)

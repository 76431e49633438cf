-- ===== src/Inventory/Stats.antt =====
-- GetSale on a sale that CreateSale has just made.
use flash_sale.Common.{ℕ, ◌≡◌, refl, sym, ap, ◌∙◌, some, [], Text, ==_iff}
use flash_sale.Common.Int.{ℤ, pos}
use flash_sale.Platform.{Platform}
use flash_sale.Platform.Keyspace.{num, str}
use flash_sale.Models.{Sale}
use flash_sale.Database.{Tables, insert_sale, find_sale}
use flash_sale.Effects.{World, Action, ok, Error, ◌>>=◌, wrap, pure, redis_call, db_query}
use flash_sale.Effects.Steps.{bind-ok, wrap-ok}
use flash_sale.Effects.Calm.{redis_call_calm, db_query_found}
use flash_sale.Redis.Script.{get}
use flash_sale.Redis.Keys.{available_key, reserved_key}
use flash_sale.Redis.Apart.{reserved_key-ne-available_key}
use flash_sale.Redis.Counters.{lookup-set_ne, lookup-set_self}
use flash_sale.Redis.Setting.{set_available}
use flash_sale.Inventory.{
  SaleInput, SaleStats, new_sale, create_sale, get_sale, get_int, int_reply, meta_fields,
}
use flash_sale.Inventory.Create.{
  create_sale-world, inserted_sale, initialised, with_both, hset-SameAt,
}

module _ (E : Platform) where
  get_int_calm :
      (k : Text) (n : ℤ) (w : World E)
      → w.faults ≡ []
      → E.lookup w.redis k ≡ some (str (num n))
      → get_int E k w ≡ (ok n, record w { faults = [] })
  unfolding get_int
  get_int_calm k n w calm held =
      bind-ok (redis_call (get E k)) (int_reply E) {a = some (num n)}
        (redis_call_calm w calm (get E k) (rw held))

  -- Where both keys hold integers, GetSale reports them.
  pub get_sale_calm :
      (id : ℕ) (sale : Sale) (a r : ℤ) (w : World E)
      → w.faults ≡ []
      → find_sale id w.db.sales ≡ some sale
      → E.lookup w.redis (available_key E id) ≡ some (str (num a))
      → E.lookup w.redis (reserved_key E id) ≡ some (str (num r))
      → (get_sale E id w).0
        ≡ ok (sale, record { available = a; reserved = r; total = sale.total_stock })
  unfolding get_sale
  get_sale_calm id sale a r w calm found ha hr =
      let w0 : World E = record w { faults = [] } in
      let query = λ (t : Tables). find_sale id t.sales in
      let ka = available_key E id in
      let kr = reserved_key E id in
      let stats : ℤ → ℤ → SaleStats =
        λ x y. record { available = x; reserved = y; total = sale.total_stock } in
      let last : ℤ → Action E (Sale × SaleStats) =
        λ x. wrap Error.reserved_failed (get_int E kr) >>= λ y. pure (sale, stats x y) in
      ap (λ p. p.0)
        (bind-ok (wrap Error.get_sale_failed (db_query query))
            (λ s. do
              available ← wrap Error.available_failed (get_int E ka)
              reserved ← wrap Error.reserved_failed (get_int E kr)
              pure
                  (s, record { available = available; reserved = reserved; total = s.total_stock }))
            (wrap-ok (db_query query) Error.get_sale_failed (db_query_found w calm query found))
          ∙ bind-ok (wrap Error.available_failed (get_int E ka)) last
              (wrap-ok (get_int E ka) Error.available_failed (get_int_calm ka a w0 refl ha))
          ∙ bind-ok (wrap Error.reserved_failed (get_int E kr)) (λ y. pure (sale, stats a y))
              (wrap-ok (get_int E kr) Error.reserved_failed (get_int_calm kr r w0 refl hr)))

  -- After CreateSale of a sale whose row is inserted, without network faults, GetSale returns that
  -- sale with all of its stock available and none reserved.
  pub get_sale-create_sale :
      (input : SaleInput) (id now : ℕ) (t : Tables) (w : World E)
      → w.faults ≡ []
      → insert_sale (new_sale input id now) w.db ≡ some t
      → (get_sale E id (create_sale E input id now w).1).0
        ≡ ok (
          new_sale input id now,
          record { available = input.total_stock; reserved = pos 0; total = input.total_stock },
        )
  get_sale-create_sale input id now t w calm inserted =
      let sale = new_sale input id now in
      let w1 : World E = record w { redis = initialised E sale w.redis; db = t; faults = [] } in
      let kept = hset-SameAt E id id (meta_fields E sale) (with_both E sale w.redis) in
      let a1 = set_available E id input.total_stock (pos 0) w.redis in
      let found : find_sale id t.sales ≡ some sale =
        ap (λ u. find_sale id u.sales) (sym (inserted_sale E sale w.db t inserted))
        ∙ rw ((==_iff id id).1 refl) in
      ap (λ v. (get_sale E id v).0) (create_sale-world E input id now t w calm inserted)
      ∙ get_sale_calm id sale input.total_stock (pos 0) w1 refl found
          (kept.0
            ∙ lookup-set_ne E (reserved_key E id) (available_key E id) (num (pos 0)) 0 a1
                (λ x. reserved_key-ne-available_key E id id (sym x))
            ∙ lookup-set_self E (available_key E id) (num input.total_stock) 0 w.redis)
          (kept.1 ∙ lookup-set_self E (reserved_key E id) (num (pos 0)) 0 a1)

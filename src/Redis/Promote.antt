-- ===== src/Redis/Promote.antt =====
-- waitlist_promote.lua against the counters and the waitlist of its sale.
use flash_sale.Common.{
  ℕ, ◌+◌, ◌-◌, ◌<◌, ◌≡◌, ◌≢◌, refl, sym, ap, ◌∙◌, Option, some, List, [], ◌∷◌, Text, codes, arith,
  same_iff,
}
use flash_sale.Common.Int.{ℤ, pos, ◌+ℤ◌, ◌-ℤ◌, ◌≤ℤ◌, int_laws}
use flash_sale.Platform.{Platform}
use flash_sale.Platform.Keyspace.{Entry, Value, zset, entries_at, put_entries, int_max}
use flash_sale.Redis.Keys.{available_key, reserved_key, waitlist_key}
use flash_sale.Redis.Apart.{
  reserved_key-ne-available_key, waitlist_key-ne-available_key, waitlist_key-ne-reserved_key,
}
use flash_sale.Redis.Script.{◌>>=◌, ◌>>◌}
use flash_sale.Redis.Scripts.{reserve, waitlist_promote}
use flash_sale.Redis.Counters.{counter, put_ne, put_self}
use flash_sale.Redis.Stock.{decr_incr, get_positive, get_spent, some_stock, reserve_takes}
use flash_sale.Redis.Counts.{AllCounts, SameAt, same-Counts, at_sale, elsewhere}
use flash_sale.Redis.Moves.{reserve-AllCounts}

pub put_entries_ne :
    (k j : Text) (es : List Entry) (f : Text → Option Value) → j ≢ k → put_entries k es f j ≡ f j
put_entries_ne k j [] f h = ground (arith, same_iff j k)
put_entries_ne k j (e ∷ es) f h = put_ne k j (zset (e ∷ es)) f h

pub put_entries_self :
    (k : Text) (es : List Entry) (f : Text → Option Value)
    → entries_at (put_entries k es f k) ≡ some es
put_entries_self k [] f = ground (arith, same_iff k k)
put_entries_self k (e ∷ es) f = rw (put_self k (zset (e ∷ es)) f)

module _ (E : Platform) (ka kr kw : Text) (s : E.Store) (a : ℤ) where
  -- Without stock, or with nobody waiting, the script answers "-1" and writes nothing.
  pub promote_no_stock :
      counter E s ka ≡ some a → a ≤ℤ pos 0 → waitlist_promote E kw ka kr s ≡ (some (codes "-1"), s)
  unfolding waitlist_promote
  promote_no_stock ha none_left =
      let (x, e, f) = get_spent (E.lookup s ka) a ha none_left in
      rw (e, f, waitlist_promote, ◌>>=◌, ◌>>◌)

  pub promote_nobody :
      counter E s ka ≡ some a
      → pos 1 ≤ℤ a
      → entries_at (E.lookup s kw) ≡ some []
      → waitlist_promote E kw ka kr s ≡ (some (codes "-1"), s)
  unfolding waitlist_promote
  promote_nobody ha stock nobody =
      rw
        (
          get_positive (E.lookup s ka) a ha stock,
          some_stock a stock,
          E.zpopmin_empty kw s nobody,
          waitlist_promote,
          ◌>>=◌,
          ◌>>◌,
        )
        (ap (λ p. (some (codes "-1"), p.1)) (E.zpopmin_empty kw s nobody))

  -- Otherwise it pops the first member, and then does what reserve.lua does.
  pub promote_pops :
      (r : ℤ) (e : Entry) (es : List Entry)
      → kr ≢ ka
      → ka ≢ kw
      → kr ≢ kw
      → counter E s ka ≡ some a
      → counter E s kr ≡ some r
      → pos 1 ≤ℤ a
      → r +ℤ pos 1 ≤ℤ int_max
      → entries_at (E.lookup s kw) ≡ some (e ∷ es)
      → waitlist_promote E kw ka kr s ≡ (some e.member, (reserve E ka kr (E.zpopmin kw s).1).1)
  unfolding waitlist_promote reserve
  promote_pops r e es apart apart_a apart_r ha hr stock br waiting =
      let s1 = (E.zpopmin kw s).1 in
      let popped : E.lookup s1 ≡ put_entries kw es (E.lookup s) =
        E.lookup-zpopmin kw s e es waiting in
      let ha1 : counter E s1 ka ≡ some a =
        rw (popped, put_entries_ne kw ka es (E.lookup s) apart_a) ha in
      let hr1 : counter E s1 kr ≡ some r =
        rw (popped, put_entries_ne kw kr es (E.lookup s) apart_r) hr in
      let (d, i, g) = decr_incr E ka kr s1 a r apart ha1 hr1 (omega int_laws) br in
      rw (
        get_positive (E.lookup s ka) a ha stock,
        get_positive (E.lookup s1 ka) a ha1 stock,
        some_stock a stock,
        E.zpopmin_reply kw s e es waiting,
        d,
        i,
        waitlist_promote,
        reserve,
        ◌>>=◌,
        ◌>>◌,
      )

module _ (E : Platform) (sale : ℕ) where
  abbrev pub promote_script : E.Store → Option Text × E.Store
  promote_script =
      waitlist_promote E (waitlist_key E sale) (available_key E sale) (reserved_key E sale)

module _ (E : Platform) (totals q o : ℕ → ℕ) (s : E.Store) (sale : ℕ)
    (all : AllCounts E totals q o s) where
  -- A sale without a free unit promotes nobody.
  pub promote_full :
      q sale + o sale ≡ totals sale → promote_script E sale s ≡ (some (codes "-1"), s)
  promote_full full =
      promote_no_stock E (available_key E sale) (reserved_key E sale) (waitlist_key E sale) s
        (pos (totals sale - (q sale + o sale))) (all sale).available_held (omega arith)

  pub promote_unwanted :
      q sale + o sale < totals sale
      → entries_at (E.lookup s (waitlist_key E sale)) ≡ some []
      → promote_script E sale s ≡ (some (codes "-1"), s)
  promote_unwanted room nobody =
      promote_nobody E (available_key E sale) (reserved_key E sale) (waitlist_key E sale) s
        (pos (totals sale - (q sale + o sale))) (all sale).available_held (omega arith) nobody

  module _ (e : Entry) (es : List Entry) (room : q sale + o sale < totals sale)
      (waiting : entries_at (E.lookup s (waitlist_key E sale)) ≡ some (e ∷ es)) where
    abbrev popped_store : E.Store
    popped_store = (E.zpopmin (waitlist_key E sale) s).1

    popped : E.lookup popped_store ≡ put_entries (waitlist_key E sale) es (E.lookup s)
    popped = E.lookup-zpopmin (waitlist_key E sale) s e es waiting

    popped-SameAt : (b : ℕ) → SameAt E b s popped_store
    popped-SameAt b = (
      rw (
        popped,
        put_entries_ne (waitlist_key E sale) (available_key E b) es (E.lookup s)
            (λ h. waitlist_key-ne-available_key E sale b (sym h)),
      ),
      rw (
        popped,
        put_entries_ne (waitlist_key E sale) (reserved_key E b) es (E.lookup s)
            (λ h. waitlist_key-ne-reserved_key E sale b (sym h)),
      ),
    )

    popped-AllCounts : AllCounts E totals q o popped_store
    popped-AllCounts b = same-Counts E (popped-SameAt b) (all b)

    as_reserve :
        promote_script E sale s
        ≡ (some e.member, (reserve E (available_key E sale) (reserved_key E sale) popped_store).1)
    as_reserve =
        promote_pops E (available_key E sale) (reserved_key E sale) (waitlist_key E sale) s
          (pos (totals sale - (q sale + o sale))) (pos (q sale)) e es
          (reserved_key-ne-available_key E sale sale)
          (λ h. waitlist_key-ne-available_key E sale sale (sym h))
          (λ h. waitlist_key-ne-reserved_key E sale sale (sym h)) (all sale).available_held
          (all sale).reserved_held (omega arith)
          (omega (int_laws, (all sale).small, (all sale).within)) waiting

    -- With a free unit and somebody waiting, the first of them is taken off the list, and a unit
    -- is reserved.
    pub promote-AllCounts :
        let (v, s') = promote_script E sale s in
        (v ≡ some e.member)
        × AllCounts E totals (λ b. q b + at_sale sale b) o s'
        × (entries_at (E.lookup s' (waitlist_key E sale)) ≡ some es)
    promote-AllCounts =
        let ka = available_key E sale in
        let kr = reserved_key E sale in
        let c = popped-AllCounts sale in
        let (v, stocked) =
          reserve_takes E ka kr popped_store (pos (totals sale - (q sale + o sale))) (pos (q sale))
            (reserved_key-ne-available_key E sale sale) c.available_held c.reserved_held
            (omega arith) (omega (int_laws, c.small, c.within)) in
        let s2 = (reserve E ka kr popped_store).1 in
        let same_list =
          elsewhere E popped_store s2 sale (pos (totals sale - (q sale + o sale)) -ℤ pos 1)
            (pos (q sale) +ℤ pos 1) (waitlist_key E sale) stocked
            (waitlist_key-ne-available_key E sale sale)
            (waitlist_key-ne-reserved_key E sale sale) in
        rw as_reserve (
          refl,
          (reserve-AllCounts E totals q o popped_store sale popped-AllCounts room).1,
          ap entries_at (same_list ∙ ap (λ f. f (waitlist_key E sale)) popped)
              ∙ put_entries_self (waitlist_key E sale) es (E.lookup s),
        )

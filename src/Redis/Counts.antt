-- ===== src/Redis/Counts.antt =====
-- The counters of every sale against how many units are reserved and how many are sold, and what a
-- change at one sale does to them.
use flash_sale.Common.{
  ℕ, ◌+◌, ◌-◌, ◌≤◌, ◌≡◌, ◌≢◌, refl, sym, ap, subst, ◌∙◌, some, Text, ◌==◌, ==_iff, if◌then◌else◌,
  arith, Bool-cases, inl, inr,
}
use flash_sale.Common.Int.{ℤ, pos}
use flash_sale.Platform.{Platform}
use flash_sale.Platform.Keyspace.{integer_at, str, num, put}
use flash_sale.Redis.Keys.{available_key, reserved_key}
use flash_sale.Redis.Apart.{
  available_key-injective, reserved_key-injective, reserved_key-ne-available_key,
}
use flash_sale.Redis.Counters.{counter, put_self, put_ne}
use flash_sale.Redis.Stock.{stocked}

-- Of the total of a sale, `reserved` units are reserved and `sold` are sold, and the counters say so.
pub record Counts (E : Platform) (total reserved sold sale : ℕ) (s : E.Store) : Type 0 where
  pub small : total ≤ 2147483647
  pub within : reserved + sold ≤ total
  pub available_held : counter E s (available_key E sale) ≡ some (pos (total - (reserved + sold)))
  pub reserved_held : counter E s (reserved_key E sale) ≡ some (pos reserved)

abbrev pub at_sale : ℕ → ℕ → ℕ
at_sale sale b = if b == sale then 1 else 0

pub at_self : (sale : ℕ) → at_sale sale sale ≡ 1
at_self sale = ground arith

pub at_other : (sale b : ℕ) → b ≢ sale → at_sale sale b ≡ 0
at_other sale b h = ground arith

module _ (E : Platform) where
  module _ (s s' : E.Store) (sale : ℕ) (a r : ℤ) where
    abbrev pub Stocked : Type 0
    Stocked = E.lookup s' ≡ stocked (available_key E sale) a (reserved_key E sale) r (E.lookup s)

    pub available_at : Stocked → counter E s' (available_key E sale) ≡ some a
    available_at e = rw (
      e,
      put_ne (reserved_key E sale) (available_key E sale) (str (num r))
          (put (available_key E sale) (str (num a)) (E.lookup s))
          (λ h. reserved_key-ne-available_key E sale sale (sym h)),
      put_self (available_key E sale) (str (num a)) (E.lookup s),
    )

    pub reserved_at : Stocked → counter E s' (reserved_key E sale) ≡ some r
    reserved_at e = rw (
      e,
      put_self (reserved_key E sale) (str (num r))
          (put (available_key E sale) (str (num a)) (E.lookup s)),
    )

    pub elsewhere :
        (k : Text)
        → Stocked
        → k ≢ available_key E sale
        → k ≢ reserved_key E sale
        → E.lookup s' k ≡ E.lookup s k
    elsewhere k e ha hr = rw (
      e,
      put_ne (reserved_key E sale) k (str (num r))
          (put (available_key E sale) (str (num a)) (E.lookup s)) hr,
      put_ne (available_key E sale) k (str (num a)) (E.lookup s) ha,
    )

  -- The counters of a sale are as they were.
  abbrev pub SameAt : ℕ → E.Store → E.Store → Type 0
  SameAt b s s' =
      (E.lookup s' (available_key E b) ≡ E.lookup s (available_key E b))
      × (E.lookup s' (reserved_key E b) ≡ E.lookup s (reserved_key E b))

  Stocked-SameAt :
      (s s' : E.Store) (sale b : ℕ) (a r : ℤ) → Stocked s s' sale a r → b ≢ sale → SameAt b s s'
  Stocked-SameAt s s' sale b a r e apart = (
    elsewhere s s' sale a r (available_key E b) e (λ h. apart (available_key-injective E b sale h))
        (λ h. reserved_key-ne-available_key E sale b (sym h)),
    elsewhere s s' sale a r (reserved_key E b) e (reserved_key-ne-available_key E b sale)
        (λ h. apart (reserved_key-injective E b sale h)),
  )

  pub same-Counts :
      {t q o b : ℕ} {s s' : E.Store} → SameAt b s s' → Counts E t q o b s → Counts E t q o b s'
  same-Counts h c = record {
    small = c.small;
    within = c.within;
    available_held = ap integer_at h.0 ∙ c.available_held;
    reserved_held = ap integer_at h.1 ∙ c.reserved_held;
  }

  -- The counters of every sale.
  abbrev pub AllCounts : (ℕ → ℕ) → (ℕ → ℕ) → (ℕ → ℕ) → E.Store → Type 0
  AllCounts totals q o s = (b : ℕ) → Counts E (totals b) (q b) (o b) b s

  pub recount :
      {t q q' o o' b : ℕ} {s : E.Store}
      → q ≡ q'
      → o ≡ o'
      → Counts E t q o b s
      → Counts E t q' o' b s
  recount {t} {q} {q'} {o} {o'} {b} {s} e f c = record {
    small = c.small;
    within = omega (arith, c.within);
    available_held = c.available_held ∙ ap some (ap pos (omega arith));
    reserved_held = c.reserved_held ∙ ap some (ap pos e);
  }

  -- From the counters of one sale to those of all, after a script on that sale.
  pub spread :
      (totals q o q' o' : ℕ → ℕ) (s s' : E.Store) (sale : ℕ)
      → AllCounts totals q o s
      → ((b : ℕ) → b ≢ sale → SameAt b s s')
      → ((b : ℕ) → b ≢ sale → (q b ≡ q' b) × (o b ≡ o' b))
      → Counts E (totals sale) (q' sale) (o' sale) sale s'
      → AllCounts totals q' o' s'
  spread totals q o q' o' s s' sale all off same c b = elim (Bool-cases (b == sale)) [
    | inl hit ↦ subst (λ d. Counts E (totals d) (q' d) (o' d) d s') (sym ((==_iff b sale).0 hit)) c
    | inr miss ↦
        let apart : b ≢ sale = λ h. cc (miss, (==_iff b sale).1 h) in
        let (f, g) = same b apart in recount f g (same-Counts (off b apart) (all b))
  ]

  -- The same for the scripts that set both counters.
  pub stocked-AllCounts :
      (totals q q' o : ℕ → ℕ) (s s' : E.Store) (sale : ℕ) {a r : ℤ}
      → AllCounts totals q o s
      → Stocked s s' sale a r
      → ((b : ℕ) → b ≢ sale → q b ≡ q' b)
      → q' sale + o sale ≤ totals sale
      → a ≡ pos (totals sale - (q' sale + o sale))
      → r ≡ pos (q' sale)
      → AllCounts totals q' o s'
  stocked-AllCounts totals q q' o s s' sale {a} {r} all e same room ea er =
      spread totals q o q' o s s' sale all (λ b h. Stocked-SameAt s s' sale b a r e h)
        (λ b h. (same b h, refl))
        (record {
          small = (all sale).small;
          within = room;
          available_held = available_at s s' sale a r e ∙ ap some ea;
          reserved_held = reserved_at s s' sale a r e ∙ ap some er;
        })

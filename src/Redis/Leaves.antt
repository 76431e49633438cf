-- ===== src/Redis/Leaves.antt =====
-- Scripts that leave the counters of every sale alone.
use flash_sale.Common.{ℕ, refl, ◌∙◌, Option, some, none, Bool, true, false, if◌then◌else◌}
use flash_sale.Platform.{Platform}
use flash_sale.Redis.Script
use flash_sale.Redis.Counts.{SameAt}

module _ (E : Platform) where
  -- A script that leaves the counters of every sale alone.
  pub record Leaves {A : Type 0} (f : Script.Script E.Store A) : Type 0 where
    pub same_at : (s : E.Store) (b : ℕ) → SameAt E b s (f s).1

  pub read-Leaves : {A : Type 0} (f : E.Store → Option A) → Leaves (λ s. (f s, s))
  read-Leaves f = record { same_at = λ s b. (refl, refl) }

  same_both : (s u v : E.Store) (b : ℕ) → SameAt E b s u → SameAt E b u v → SameAt E b s v
  same_both s u v b h k = (k.0 ∙ h.0, k.1 ∙ h.1)

  pub bind-Leaves :
      {A B : Type 0} (m : Script.Script E.Store A) (f : A → Script.Script E.Store B)
      → Leaves m
      → ((a : A) → Leaves (f a))
      → Leaves (Script.◌>>=◌ m f)
  bind-Leaves {A} {B} m f h k = record {
    same_at = λ s b. after s b (m s).0 (m s).1 (h.same_at s b);
  }
    where
      after :
          (s : E.Store) (b : ℕ) (r : Option A) (u : E.Store)
          → SameAt E b s u
          → SameAt E b s
              (elim r as (λ _. Option B × E.Store) [ some a ↦ f a u | none ↦ (none, u) ]).1
      after s b none u g = g
      after s b (some a) u g = same_both s u (f a u).1 b g ((k a).same_at u b)

  pub if-Leaves :
      {A : Type 0} (c : Bool) (f g : Script.Script E.Store A)
      → Leaves f
      → Leaves g
      → Leaves (if c then f else g)
  if-Leaves true f g h k = h
  if-Leaves false f g h k = k

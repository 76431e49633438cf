-- ===== src/Effects/Keeps.antt =====
-- Relations between the world before a call and the world after it. A reflexive and transitive
-- relation that every part of a do block respects is respected by the block.
use flash_sale.Common.{Bool, true, false, if◌then◌else◌}
use flash_sale.Platform.{Platform}
use flash_sale.Effects.{
  World, Result, ok, err, Error, Action, pure, fail, wrap, attempt, ◌>>=◌, ◌>>◌,
}

pub record Preorder (E : Platform) : Type 1 where
  pub Rel : World E → World E → Type 0
  pub reflexive : (w : World E) → Rel w w
  pub transitive : (u v w : World E) → Rel u v → Rel v w → Rel u w

module _ {E : Platform} (R : Preorder E) where
  pub record Keeps {A : Type 0} (m : Action E A) : Type 0 where
    pub holds : (w : World E) → R.Rel w (m w).1

  pub pure-Keeps : {A : Type 0} (a : A) → Keeps (pure a)
  pure-Keeps a = record { holds = R.reflexive }

  pub fail-Keeps : (A : Type 0) (e : Error) → Keeps (fail {A = A} e)
  fail-Keeps A e = record { holds = R.reflexive }

  pub wrap-Keeps : {A : Type 0} (e : Error) (m : Action E A) → Keeps m → Keeps (wrap e m)
  wrap-Keeps e m h = record { holds = h.holds }

  pub attempt-Keeps : {A : Type 0} (m : Action E A) → Keeps m → Keeps (attempt m)
  attempt-Keeps m h = record { holds = h.holds }

  branch :
      {A B : Type 0} (f : A → Action E B) (r : Result A) (u v : World E)
      → R.Rel u v
      → ((a : A) → Keeps (f a))
      → R.Rel u (elim r as (λ _. Result B × World E) [ ok a ↦ f a v | err e ↦ (err e, v) ]).1
  branch f (ok a) u v h k = R.transitive u v (f a v).1 h ((k a).holds v)
  branch f (err e) u v h k = h

  pub bind-Keeps :
      {A B : Type 0} (m : Action E A) (f : A → Action E B)
      → Keeps m
      → ((a : A) → Keeps (f a))
      → Keeps (m >>= f)
  bind-Keeps m f h k = record { holds = λ w. branch f (m w).0 w (m w).1 (h.holds w) k }

  pub then-Keeps :
      {A B : Type 0} (m : Action E A) (k : Action E B) → Keeps m → Keeps k → Keeps (m >> k)
  then-Keeps m k h h' = bind-Keeps m (λ _. k) h (λ _. h')

  pub if-Keeps :
      {A : Type 0} (b : Bool) (m k : Action E A) → Keeps m → Keeps k → Keeps (if b then m else k)
  if-Keeps true m k h h' = h
  if-Keeps false m k h h' = h'

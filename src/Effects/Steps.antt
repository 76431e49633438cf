-- ===== src/Effects/Steps.antt =====
-- What a composed action does once its first part is known.
use flash_sale.Common.{◌≡◌, ap, none, some}
use flash_sale.Platform.{Platform}
use flash_sale.Effects.{World, Action, ok, err, Error, wrap, attempt, ◌>>=◌, ◌>>◌}

module _ {E : Platform} {A : Type 0} (m : Action E A) {w w' : World E} where
  pub bind-ok : {B : Type 0} (f : A → Action E B) {a : A} → m w ≡ (ok a, w') → (m >>= f) w ≡ f a w'
  bind-ok f {a} e = rw (e, ◌>>=◌) (ap (f a) (ap (λ t. t.1) e))

  pub bind-err :
      {B : Type 0} (f : A → Action E B) {x : Error} → m w ≡ (err x, w') → (m >>= f) w ≡ (err x, w')
  bind-err f {x} e = rw (e, ◌>>=◌) (ap (λ v. (err x, v)) (ap (λ t. t.1) e))

  pub then-ok : {B : Type 0} (k : Action E B) {a : A} → m w ≡ (ok a, w') → (m >> k) w ≡ k w'
  then-ok k e = bind-ok (λ _. k) e

  pub then-err :
      {B : Type 0} (k : Action E B) {x : Error} → m w ≡ (err x, w') → (m >> k) w ≡ (err x, w')
  then-err k e = bind-err (λ _. k) e

  pub wrap-ok : (x : Error) {a : A} → m w ≡ (ok a, w') → wrap x m w ≡ (ok a, w')
  wrap-ok x {a} e = rw (ap (λ t. t.0) e) (ap (λ v. (ok a, v)) (ap (λ t. t.1) e))

  pub wrap-err : (x : Error) {y : Error} → m w ≡ (err y, w') → wrap x m w ≡ (err x, w')
  wrap-err x e = rw (ap (λ t. t.0) e) (ap (λ v. (err x, v)) (ap (λ t. t.1) e))

  pub attempt-ok : {a : A} → m w ≡ (ok a, w') → attempt m w ≡ (ok (some a), w')
  attempt-ok {a} e = rw (ap (λ t. t.0) e) (ap (λ v. (ok (some a), v)) (ap (λ t. t.1) e))

  pub attempt-err : {y : Error} → m w ≡ (err y, w') → attempt m w ≡ (ok none, w')
  attempt-err e = rw (ap (λ t. t.0) e) (ap (λ v. (ok none, v)) (ap (λ t. t.1) e))

pub answered :
    {E : Platform} {A : Type 0} (m : Action E A) (w : World E) {a : A}
    → (m w).0 ≡ ok a
    → m w ≡ (ok a, (m w).1)
answered m w e = ap (λ r. (r, (m w).1)) e

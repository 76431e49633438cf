-- ===== src/RateLimit/Paid.antt =====
-- What a call of the limiter costs, under whatever the network does.
use flash_sale.Common.{
  ℕ, ◌+◌, ◌*◌, ◌≤◌, Text, ◌≡◌, refl, sym, ap, subst, Bool, true, false, Option, arith,
  if◌then◌else◌,
}
use flash_sale.Common.Int.{ℤ, pos, negsuc}
use flash_sale.Platform.{Platform}
use flash_sale.Effects.{
  World, Result, ok, err, Error, Outcome, answer, landed, first_fault, redis_call, later_faults,
  renamed, pure,
}
use flash_sale.RateLimit.{Limiter, Verdict, verdict, one_token, ratelimit_key, token_bucket, allow}
use flash_sale.RateLimit.Level.{one_if, after-Past, after_pays}
use flash_sale.RateLimit.Refines.{Holds, Bucketed, token_bucket-Bucketed}
use flash_sale.RateLimit.Bucket.{Bucket, level, Past, admits, after}

abbrev verdicts : Result ℤ → Result Verdict
verdicts (ok n) = ok (verdict n)
verdicts (err e) = err Error.rate_limiter_failed

abbrev pub admitted : Result Verdict → ℕ
admitted (ok v) = one_if v.allowed
admitted (err e) = 0

verdict_allowed :
    (a : Bool) (n : ℕ) → admitted (ok (verdict (if a then pos n else negsuc 0))) ≡ one_if a
verdict_allowed true n = ground arith
verdict_allowed false n = refl

module _ (E : Platform) (lim : Limiter) (user : Text) where
  abbrev key : Text
  key = ratelimit_key user

  -- What the admitted calls have cost, and what is left.
  pub record Paid (now : ℕ) (b : Option Bucket) (r : Result Verdict) (s : E.Store) : Type 0 where
    pub left : Option Bucket
    pub held : Holds E key left s
    pub past : Past now left
    pub pays : one_token * admitted r + level lim now left ≤ level lim now b

  settle :
      (r : Result ℤ) (v : World E)
      → (elim (renamed Error.rate_limiter_failed r) as (λ _. Result Verdict × World E) [
        | ok a ↦ pure (verdict a) v
        | err e ↦ (err e, v)
      ])
        ≡ (verdicts r, v)
  settle (ok a) v = refl
  settle (err e) v = refl

  allow_lem :
      (now : ℕ) (u : World E)
      → let p = token_bucket E key lim.capacity lim.rate_per_sec now u.redis in
        let o = first_fault u.faults in
        ((allow E lim user now u).0 ≡ verdicts (answer o p.0))
        × ((allow E lim user now u).1.redis ≡ landed o u.redis p.1)
  unfolding allow redis_call
  allow_lem now u =
      let p = token_bucket E key lim.capacity lim.rate_per_sec now u.redis in
      let o = first_fault u.faults in
      let v : World E = record u { redis = landed o u.redis p.1; faults = later_faults u.faults } in
      let e = settle (answer o p.0) v in (ap (λ q. q.0) e, ap (λ q. q.1.redis) e)

  outcome-Paid :
      (o : Outcome) (now : ℕ) (b : Option Bucket) (s : E.Store) (p : Option ℤ × E.Store)
      → Past now b
      → Holds E key b s
      → Bucketed E key lim now b s p
      → Paid now b (verdicts (answer o p.0)) (landed o s p.1)
  outcome-Paid Outcome.done now b s p past held run = record {
    left = after lim now b;
    held = run.held;
    past = after-Past lim now b past;
    pays = rw (run.answer, verdict_allowed (admits lim now b) _) (after_pays lim now b);
  }
  outcome-Paid Outcome.refused now b s p past held run = record {
    left = b;
    held = held;
    past = past;
    pays = omega arith;
  }
  outcome-Paid Outcome.lost now b s p past held run = record {
    left = after lim now b;
    held = run.held;
    past = after-Past lim now b past;
    pays = omega (arith, after_pays lim now b);
  }

  pub allow-Paid :
      (now : ℕ) (b : Option Bucket) (u : World E)
      → Past now b
      → Holds E key b u.redis
      → Paid now b (allow E lim user now u).0 (allow E lim user now u).1.redis
  allow-Paid now b u past held =
      let (answered, stored) = allow_lem now u in
      subst (λ r. Paid now b r (allow E lim user now u).1.redis) (sym answered)
        (subst (Paid now b _) (sym stored) (
          outcome-Paid (first_fault u.faults) now b u.redis _ past held
            (token_bucket-Bucketed E key lim now b u.redis held past)))

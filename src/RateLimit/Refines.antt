-- ===== src/RateLimit/Refines.antt =====
-- token_bucket.lua against the pure machine.
use flash_sale.Common.{
  ℕ, ◌+◌, ◌-◌, ◌*◌, ◌/◌, ◌≤◌, ◌≡◌, ◌≢◌, refl, sym, ap, subst, ◌∙◌, true, false, Option, none, some,
  [], Text, arith, if◌then◌else◌, Bool-cases, Option-cases, inl, inr, ltb,
}
use flash_sale.Common.Int.{ℤ, pos, negsuc, ◌+ℤ◌, ◌-ℤ◌, min_ℤ, scale, ltb_ℤ}
use flash_sale.Platform.{Platform}
use flash_sale.Platform.Keyspace.{hash, fields_at, put}
use flash_sale.Redis.Script
use flash_sale.Redis.Counters.{put_self, put_ne}
use flash_sale.RateLimit.{
  Limiter, one_token, bucket_fields, write_bucket, spend, token_bucket, open_bucket, hmget_reply,
  refill,
}
use flash_sale.RateLimit.Bucket.{Bucket, level, least, Past, admits, after}

elapsed : (last now : ℕ) → last ≤ now → pos now -ℤ pos last ≡ pos (now - last)
unfolding ◌-ℤ◌
elapsed last now h = ground arith

refilled :
    (cap tokens rate last now : ℕ)
    → last ≤ now
    → min_ℤ (pos cap) (pos tokens +ℤ scale rate (pos now -ℤ pos last))
      ≡ pos (least cap (tokens + rate * (now - last)))
unfolding ◌+ℤ◌
refilled cap tokens rate last now h = rw (elapsed last now h) (ground arith)

refilled_full :
    (cap rate now : ℕ) → min_ℤ (pos cap) (pos cap +ℤ scale rate (pos now -ℤ pos now)) ≡ pos cap
unfolding ◌+ℤ◌
refilled_full cap rate now = rw (elapsed now now (omega arith)) (ground arith)

taken : (n : ℕ) → one_token ≤ n → pos n -ℤ pos one_token ≡ pos (n - one_token)
unfolding ◌-ℤ◌
taken n h = ground arith

some-ne-none {ℓ} : {A : Type ℓ} {a : A} → some a ≢ none
some-ne-none e = cc

-- The rest of a script runs where its first command has answered.
script-ok :
    {S A B : Type 0} (m : Script.Script S A) (f : A → Script.Script S B) (s : S) {a : A}
    → (m s).0 ≡ some a
    → Script.◌>>=◌ m f s ≡ f a (m s).1
script-ok m f s e = rw (e, Script.◌>>=◌)

module _ (E : Platform) (key : Text) where
  -- The key holds the bucket and nothing else.
  abbrev pub Holds : Option Bucket → E.Store → Type 0
  Holds none s = E.lookup s key ≡ none
  Holds (some b) s = E.lookup s key ≡ some (hash (bucket_fields (pos b.tokens) (pos b.last_refill)))

  hash_held :
      (b : Option Bucket) (s : E.Store) (tokens now : ℕ)
      → Holds b s
      → let fs = bucket_fields (pos tokens) (pos now) in
        ((E.hset key fs s).0 ≢ none)
        × (E.lookup (E.hset key fs s).1 ≡ put key (hash fs) (E.lookup s))
  hash_held none s tokens now h =
      let fs = bucket_fields (pos tokens) (pos now) in
      (E.hset_reply key fs s [] (ap fields_at h), E.lookup-hset key fs s [] (ap fields_at h))
  hash_held (some b) s tokens now h =
      let fs = bucket_fields (pos tokens) (pos now) in
      let old = bucket_fields (pos b.tokens) (pos b.last_refill) in
      (E.hset_reply key fs s old (ap fields_at h), E.lookup-hset key fs s old (ap fields_at h))

  -- The two writes of an admitted request.
  pub record Spent (now tokens : ℕ) (s : E.Store) (p : Option ℤ × E.Store) : Type 0 where
    pub answer : p.0 ≡ some (pos (tokens / one_token))
    pub held : Holds (some (record { tokens = tokens; last_refill = now })) p.1
    pub elsewhere : (j : Text) → j ≢ key → E.lookup p.1 j ≡ E.lookup s j
    pub armed : E.ttl p.1 key ≡ some 60

  write_bucket-Spent :
      (b : Option Bucket) (now tokens : ℕ) (s : E.Store)
      → Holds b s
      → Spent now tokens s (write_bucket E key now (pos tokens) s)
  write_bucket-Spent b now tokens s held =
      let fs = bucket_fields (pos tokens) (pos now) in
      let (answered, written) = hash_held b s tokens now held in
      let s1 = (E.hset key fs s).1 in
      let s2 = (E.expire key 60 s1).1 in
      let in_place : E.lookup s1 key ≡ some (hash fs) =
        ap (λ f. f key) written ∙ put_self key (hash fs) (E.lookup s) in
      elim (Option-cases (E.hset key fs s).0) [
        | inl failed ↦ absurd (answered failed)
        | inr (added, ok) ↦ elim (Option-cases (E.expire key 60 s1).0) [
          | inl failed ↦ absurd (E.expire_reply key 60 s1 failed)
          | inr (set, ok') ↦
              let spent : Spent now tokens s (some (pos (tokens / one_token)), s2) = record {
                answer = refl;
                held = ap (λ f. f key) (E.lookup-expire key 60 s1) ∙ in_place;
                elsewhere = λ j apart.
                    ap (λ f. f j) (E.lookup-expire key 60 s1 ∙ written)
                    ∙ put_ne key j (hash fs) (E.lookup s) apart;
                armed = E.ttl-expire_self key 60 s1 (λ e. some-ne-none (sym in_place ∙ e));
              } in
              subst (Spent now tokens s)
                (sym (
                  script-ok (E.hset key fs)
                    (λ _. Script.◌>>◌ (E.expire key 60) (Script.reply (pos (tokens / one_token)))) s
                    ok
                  ∙ script-ok (E.expire key 60) (λ _. Script.reply (pos (tokens / one_token))) s1
                      ok'))
                spent
        ]
      ]

  -- What a run of the script does to a bucket, against the pure machine.
  pub record Bucketed (lim : Limiter) (now : ℕ) (b : Option Bucket) (s : E.Store)
      (p : Option ℤ × E.Store) : Type 0 where
    pub answer :
        p.0
        ≡ some
            (if admits lim now b then pos ((level lim now b - one_token) / one_token) else negsuc 0)
    pub held : Holds (after lim now b) p.1
    pub elsewhere : (j : Text) → j ≢ key → E.lookup p.1 j ≡ E.lookup s j
    pub untouched : admits lim now b ≡ false → p.1 ≡ s
    pub armed : admits lim now b ≡ true → E.ttl p.1 key ≡ some 60

  short_spend :
      (now n : ℕ) (s : E.Store)
      → ltb n one_token ≡ true
      → spend E key now (pos n) s ≡ (some (negsuc 0), s)
  unfolding spend
  short_spend now n s short = let e : ltb_ℤ (pos n) (pos one_token) ≡ true = ground arith in rw e

  enough_spend :
      (now n : ℕ) (s : E.Store)
      → ltb n one_token ≡ false
      → spend E key now (pos n) s ≡ write_bucket E key now (pos (n - one_token)) s
  unfolding spend
  enough_spend now n s enough =
      let e : ltb_ℤ (pos n) (pos one_token) ≡ false = ground arith in rw (e, taken n (ground arith))

  spend-Bucketed :
      (lim : Limiter) (now : ℕ) (b : Option Bucket) (s : E.Store)
      → Holds b s
      → Bucketed lim now b s (spend E key now (pos (level lim now b)) s)
  unfolding admits after
  spend-Bucketed lim now b s held =
      let n = level lim now b in
      elim (Bool-cases (ltb n one_token)) [
        | inl short ↦ rw (short_spend now n s short) (record {
          answer = rw short;
          held = rw short held;
          elsewhere = λ j apart. refl;
          untouched = λ h. refl;
          armed = rw short (λ h. cc);
        })
        | inr enough ↦
            let spent = write_bucket-Spent b now (n - one_token) s held in
            rw (enough_spend now n s enough) (record {
              answer = rw enough spent.answer;
              held = rw enough spent.held;
              elsewhere = spent.elsewhere;
              untouched = rw enough (λ h. cc);
              armed = λ h. spent.armed;
            })
      ]

  -- On a key that holds a bucket which is not from the future, or nothing, token_bucket.lua
  -- answers as the pure bucket does, -1 or the whole tokens that are left, and leaves the bucket
  -- that it leaves, with 60 seconds to live if the request was admitted; a refused request changes
  -- nothing, and no other key is touched.
  pub token_bucket-Bucketed :
      (lim : Limiter) (now : ℕ) (b : Option Bucket) (s : E.Store)
      → Holds b s
      → Past now b
      → Bucketed lim now b s (token_bucket E key lim.capacity lim.rate_per_sec now s)
  unfolding token_bucket
  token_bucket-Bucketed lim now none s held past =
      subst (Bucketed lim now none s)
        (sym (
          script-ok (open_bucket E key lim.capacity now)
            (refill E key lim.capacity lim.rate_per_sec now) s
            (ap (λ o. hmget_reply E lim.capacity now (fields_at o)) held)
          ∙ ap (λ t. spend E key now t s) (refilled_full lim.capacity lim.rate_per_sec now)))
        (spend-Bucketed lim now none s held)
  token_bucket-Bucketed lim now (some b) s held past =
      subst (Bucketed lim now (some b) s)
        (sym (
          script-ok (open_bucket E key lim.capacity now)
            (refill E key lim.capacity lim.rate_per_sec now) s
            (ap (λ o. hmget_reply E lim.capacity now (fields_at o)) held)
          ∙ ap (λ t. spend E key now t s)
              (refilled lim.capacity b.tokens lim.rate_per_sec b.last_refill now past)))
        (spend-Bucketed lim now (some b) s held)

-- ===== src/Server/Split.antt =====
-- splitChannel against the general way to split a text into at most so many parts.
use flash_sale.Common.{
  ℕ, suc, zero, ◌≡◌, refl, sym, ap, ◌∙◌, Option, none, some, List, [], ◌∷◌, ◌++◌, Text, ◌==◌,
  if◌then◌else◌, true, false, Bool-cases, inl, inr, holds_code,
}
use mathlib.Core.List.{append-nil, append_assoc}
use flash_sale.Server.{colon, split_loop, split_channel, middle}

-- What stands before the first colon, and what after it, if there is one.
abbrev pub cut : Text → Text × Option Text
cut [] = ([], none)
cut (c ∷ t) = let (a, b) = cut t in if c == colon then ([], some t) else (c ∷ a, b)

abbrev joined : (Text → List Text) → Text → Option Text → List Text
joined f a none = a ∷ []
joined f a (some rest) = a ∷ f rest

-- strings.SplitN(text, ":", n + 1)
pub split_n : ℕ → Text → List Text
split_n zero t = t ∷ []
split_n (suc n) t = joined (split_n n) (cut t).0 (cut t).1

abbrev prepend : Text → List Text → List Text
prepend part [] = []
prepend part (x ∷ xs) = (part ++ x) ∷ xs

cut_past : (c : ℕ) (t : Text) → (c == colon) ≡ false → cut (c ∷ t) ≡ (c ∷ (cut t).0, (cut t).1)
cut_past c t plain = rw plain

cut_at : (c : ℕ) (t : Text) → (c == colon) ≡ true → cut (c ∷ t) ≡ ([], some t)
cut_at c t hit = rw hit

prepend-joined :
    (f : Text → List Text) (c : ℕ) (part a : Text) (o : Option Text)
    → prepend part (joined f (c ∷ a) o) ≡ prepend (part ++ (c ∷ [])) (joined f a o)
prepend-joined f c part a none = ap (λ x. x ∷ []) (sym (append_assoc part (c ∷ []) a))
prepend-joined f c part a (some rest) = ap (λ x. x ∷ f rest) (sym (append_assoc part (c ∷ []) a))

-- A text without a colon in front.
step_past :
    (n c : ℕ) (t part : Text)
    → (c == colon) ≡ false
    → prepend part (split_n (suc n) (c ∷ t)) ≡ prepend (part ++ (c ∷ [])) (split_n (suc n) t)
unfolding split_n
step_past n c t part plain =
    ap (λ p. prepend part (joined (split_n n) p.0 p.1)) (cut_past c t plain)
    ∙ prepend-joined (split_n n) c part (cut t).0 (cut t).1

step_at :
    (n c : ℕ) (t part : Text)
    → (c == colon) ≡ true
    → prepend part (split_n (suc n) (c ∷ t)) ≡ part ∷ split_n n t
unfolding split_n
step_at n c t part hit =
    ap (λ p. prepend part (joined (split_n n) p.0 p.1)) (cut_at c t hit)
    ∙ ap (λ x. x ∷ split_n n t) (append-nil part)

last_part : (n : ℕ) (part : Text) → prepend part (split_n (suc n) []) ≡ part ∷ []
unfolding split_n
last_part n part = ap (λ x. x ∷ []) (append-nil part)

prepend-nil : (xs : List Text) → prepend [] xs ≡ xs
prepend-nil [] = refl
prepend-nil (x ∷ xs) = refl

no_cut : (t : Text) → split_n 0 t ≡ t ∷ []
unfolding split_n
no_cut t = refl

loop_second : (a part t : Text) → split_loop (a ∷ []) part t ≡ a ∷ prepend part (split_n 1 t)
unfolding split_loop
loop_second a part [] = ap (λ x. a ∷ x) (sym (last_part 0 part))
loop_second a part (c ∷ t) = elim (Bool-cases (c == colon)) [
  | inl hit ↦
      rw hit (ap (λ x. a ∷ x) (sym (step_at 0 c t part hit ∙ ap (λ x. part ∷ x) (no_cut t))))
  | inr plain ↦
      rw plain
        (loop_second a (part ++ (c ∷ [])) t ∙ ap (λ x. a ∷ x) (sym (step_past 0 c t part plain)))
]

loop_first : (part t : Text) → split_loop [] part t ≡ prepend part (split_n 2 t)
unfolding split_loop
loop_first part [] = sym (last_part 1 part)
loop_first part (c ∷ t) = elim (Bool-cases (c == colon)) [
  | inl hit ↦ rw hit (
      loop_second part [] t
      ∙ ap (λ x. part ∷ x) (prepend-nil (split_n 1 t))
      ∙ sym (step_at 1 c t part hit))
  | inr plain ↦ rw plain (loop_first (part ++ (c ∷ [])) t ∙ sym (step_past 1 c t part plain))
]

-- splitChannel splits a channel at its first two colons: it is SplitN into at most three parts.
pub split_channel-split_n : (channel : Text) → split_channel channel ≡ split_n 2 channel
unfolding split_channel
split_channel-split_n channel = loop_first [] channel ∙ prepend-nil (split_n 2 channel)

cut_free : (a t : Text) → holds_code colon a ≡ false → cut (a ++ (colon ∷ t)) ≡ (a, some t)
cut_free [] t free = refl
cut_free (c ∷ a) t free = elim (Bool-cases (c == colon)) [
  | inl hit ↦ cc (rw hit at free)
  | inr plain ↦
      cut_past c (a ++ (colon ∷ t)) plain
      ∙ ap (λ p. (c ∷ p.0, p.1)) (cut_free a t (rw plain at free))
]

-- The middle of a channel name whose first two parts hold no colon.
pub middle-named :
    (a b t : Text)
    → holds_code colon a ≡ false
    → holds_code colon b ≡ false
    → middle (split_channel (a ++ (colon ∷ (b ++ (colon ∷ t))))) ≡ some b
unfolding split_n
middle-named a b t free_a free_b =
    let rest = b ++ (colon ∷ t) in
    let first : split_n 2 (a ++ (colon ∷ rest)) ≡ a ∷ split_n 1 rest =
      ap (λ p. joined (split_n 1) p.0 p.1) (cut_free a rest free_a) in
    let second : split_n 1 rest ≡ b ∷ t ∷ [] =
      ap (λ p. joined (split_n 0) p.0 p.1) (cut_free b t free_b) in
    ap middle (split_channel-split_n (a ++ (colon ∷ rest)) ∙ first ∙ ap (λ x. a ∷ x) second)

-- ===== src/Common/Texts.antt =====
-- Texts as lists of character codes: Redis keys, members of sorted sets, and user-supplied keys.
use Prim.Native.Nat.{ℕ}
use Prim.Native.Char.{code}
use Prim.Native.String.{String}
use mathlib.Core.Path.{◌≡◌, refl, ap, ◌∙◌, sym}
use mathlib.Core.Logic.{◌↔◌}
use mathlib.Core.Bool.{Bool, true, false, ◌&&◌}
use mathlib.Core.List.{List, [], ◌∷◌, ◌++◌, reverse, reverse-append, reverse-reverse}
use native.Mathlib.Omega.{arith}
use flash_sale.Common.Tests.{ltb, ◌==◌, if◌then◌else◌}

abbrev pub Text : Type 0
Text = List ℕ

abbrev pub codes : String → Text
codes String.[] = []
codes (String.◌∷◌ c s) = code c ∷ codes s

abbrev pub same : Text → Text → Bool
same [] [] = true
same [] (c ∷ t) = false
same (c ∷ t) [] = false
same (c ∷ t) (d ∷ u) = c == d && same t u

pub same_iff : (t u : Text) → (same t u ≡ true) ↔ (t ≡ u)
same_iff [] [] = ground arith
same_iff [] (d ∷ u) = ground arith
same_iff (c ∷ t) [] = ground arith
same_iff (c ∷ t) (d ∷ u) = ground (arith, same_iff t u)

pub same_refl : (t : Text) → same t t ≡ true
same_refl t = (same_iff t t).1 refl

pub same_comm : (t u : Text) → same t u ≡ same u t
same_comm t u = ground (arith, same_iff t u, same_iff u t)

-- Byte order, by which Redis orders the members of one score.
abbrev pub lex_lt : Text → Text → Bool
lex_lt t [] = false
lex_lt [] (d ∷ u) = true
lex_lt (c ∷ t) (d ∷ u) = if c == d then lex_lt t u else ltb c d

pub append_cancel_left {ℓ} : {A : Type ℓ} (xs ys zs : List A) → xs ++ ys ≡ xs ++ zs → ys ≡ zs
append_cancel_left [] ys zs e = e
append_cancel_left (x ∷ xs) ys zs e = append_cancel_left xs ys zs (ground arith)

pub append_cancel_right {ℓ} : {A : Type ℓ} (xs ys zs : List A) → xs ++ zs ≡ ys ++ zs → xs ≡ ys
append_cancel_right xs ys zs e =
    sym (reverse-reverse xs)
    ∙ ap reverse (
        append_cancel_left (reverse zs) (reverse xs) (reverse ys)
          (sym (reverse-append xs zs) ∙ ap reverse e ∙ reverse-append ys zs))
    ∙ reverse-reverse ys

abbrev pub holds_code : ℕ → Text → Bool
holds_code c [] = false
holds_code c (x ∷ t) = if x == c then true else holds_code c t

-- ===== src/Waitlist/Entries.antt =====
-- Sorted sets in rank order: where an entry goes, and what comes out again.
use flash_sale.Common.{
  ℕ, suc, ◌+◌, ◌≤◌, ◌<◌, ◌≡◌, refl, none, some, List, [], ◌∷◌, Text, length, arith, same, same_refl,
  Bool-cases, inl, inr, ◌++◌,
}
use flash_sale.Platform.Keyspace.{Entry, before, insert_entry, remove_member, score_of, rank_of}

pub remove_absent : (m : Text) (es : List Entry) → score_of m es ≡ none → remove_member m es ≡ es
remove_absent m [] h = refl
remove_absent m (e ∷ es) h = ground (arith, remove_absent m es)

pub rank_absent : (m : Text) (es : List Entry) → score_of m es ≡ none → rank_of m es ≡ none
rank_absent m [] h = refl
rank_absent m (e ∷ es) h = ground (arith, rank_absent m es)

pub remove-insert :
    (e : Entry) (es : List Entry)
    → score_of e.member es ≡ none
    → remove_member e.member (insert_entry e es) ≡ es
remove-insert e [] h = rw (same_refl e.member)
remove-insert e (d ∷ es) h = elim (Bool-cases (before e d)) [
  | inl first ↦ rw (first, same_refl e.member)
  | inr later ↦ rw later (ground (arith, remove-insert e es))
]

pub length-insert : (e : Entry) (es : List Entry) → length (insert_entry e es) ≡ length es + 1
length-insert e [] = refl
length-insert e (d ∷ es) = ground (arith, length-insert e es)

-- The rank of the new entry: it is in the set.
pub rank-insert :
    (e : Entry) (es : List Entry)
    → (r : ℕ) × (rank_of e.member (insert_entry e es) ≡ some r) × (r ≤ length es)
rank-insert e [] = (0, rw (same_refl e.member), omega arith)
rank-insert e (d ∷ es) = elim (Bool-cases (before e d)) [
  | inl first ↦ (0, rw (first, same_refl e.member), omega arith)
  | inr later ↦
      let (r, found, bound) = rank-insert e es in
      elim (Bool-cases (same d.member e.member)) [
        | inl hit ↦ (0, rw (later, hit), omega arith)
        | inr miss ↦ (suc r, rw (later, miss, found), omega (arith, bound))
      ]
]

-- Every entry is older.
abbrev pub AllBefore : ℕ → List Entry → Type 0
AllBefore t [] = Unit {0}
AllBefore t (e ∷ es) = (e.score < t) × AllBefore t es

-- A later entry goes to the end.
pub insert_last :
    (e : Entry) (es : List Entry) → AllBefore e.score es → insert_entry e es ≡ es ++ (e ∷ [])
insert_last e [] h = refl
insert_last e (d ∷ es) (older, rest) = ground (arith, insert_last e es rest)

pub rank_last :
    (e : Entry) (es : List Entry)
    → score_of e.member es ≡ none
    → rank_of e.member (es ++ (e ∷ [])) ≡ some (length es)
rank_last e [] h = rw (same_refl e.member)
rank_last e (d ∷ es) h = ground (arith, rank_last e es)

-- ===== src/Hub/Rooms.antt =====
-- Who is in a room after somebody enters or leaves.
use flash_sale.Common.{
  ℕ, ◌≡◌, ◌≢◌, sym, ap, ◌∙◌, true, false, List, [], ◌∷◌, Text, same, same_refl, same_iff, ◌==◌,
  ==_iff, arith, Bool-cases, Option-cases, inl, inr, ◌⊎◌,
}
use flash_sale.Platform.Keyspace.{put}
use flash_sale.Database.{has_id}
use flash_sale.Reservation.{is_empty}
use flash_sale.Hub.{Rooms, members, insert, delete, enter, exit, leave_room, settle_room}

-- The client is in the room.
abbrev pub IsIn : ℕ → Text → Rooms → Type 0
IsIn c key rooms = has_id c (members (rooms key)) ≡ true

has-insert :
    (c d : ℕ) (cs : List ℕ) → has_id d (insert c cs) ≡ true → (d ≡ c) ⊎ (has_id d cs ≡ true)
has-insert c d cs h = ground (arith, has_id)

pub has-delete :
    (c d : ℕ) (cs : List ℕ) → has_id d (delete c cs) ≡ true → (d ≢ c) × (has_id d cs ≡ true)
has-delete c d [] h = cc
has-delete c d (e ∷ cs) h = elim (Bool-cases (e == c)) [
  | inl hit ↦ let (apart, inside) = has-delete c d cs (rw hit at h) in (apart, ground arith)
  | inr miss ↦
      let kept : has_id d (e ∷ delete c cs) ≡ true = rw miss at h in
      elim (Bool-cases (e == d)) [
        | inl same_id ↦
            ((λ eq. cc (miss, (==_iff e c).1 ((==_iff e d).0 same_id ∙ eq))), rw same_id)
        | inr other ↦
            let (apart, inside) = has-delete c d cs (rw other at kept) in (apart, rw other inside)
      ]
]

-- Whoever is in a room after an entry has entered it or was in it.
pub enter-IsIn :
    (key k : Text) (c d : ℕ) (rooms : Rooms)
    → IsIn d k (enter key c rooms)
    → ((d ≡ c) × (k ≡ key) × (is_empty key ≡ false)) ⊎ IsIn d k rooms
enter-IsIn key k c d rooms h = elim (Bool-cases (is_empty key)) [
  | inl nameless ↦ inr (rw nameless at h)
  | inr named ↦
      let entered : has_id d (members (put key (insert c (members (rooms key))) rooms k)) ≡ true =
        rw named at h in
      elim (Bool-cases (same k key)) [
        | inl hit ↦
            let same_key = (same_iff k key).0 hit in
            elim (has-insert c d (members (rooms key)) (rw hit at entered)) [
              | inl new ↦ inl (new, same_key, named)
              | inr old ↦ inr (ap (λ x. has_id d (members (rooms x))) same_key ∙ old)
            ]
        | inr miss ↦ inr (rw miss at entered)
      ]
]

has-insert_self : (c : ℕ) (cs : List ℕ) → has_id c (insert c cs) ≡ true
has-insert_self c cs = ground (arith, has_id)

-- Whoever enters a room with a name is in it.
pub enter_self :
    (key : Text) (c : ℕ) (rooms : Rooms) → is_empty key ≡ false → IsIn c key (enter key c rooms)
enter_self key c rooms named = rw (named, same_refl key) (has-insert_self c (members (rooms key)))

settled :
    (key k : Text) (d : ℕ) (cs : List ℕ) (rooms : Rooms)
    → IsIn d k (settle_room key cs rooms)
    → ((k ≡ key) × (has_id d cs ≡ true)) ⊎ ((same k key ≡ false) × IsIn d k rooms)
settled key k d [] rooms h = elim (Bool-cases (same k key)) [
  | inl hit ↦ cc (rw hit at h)
  | inr miss ↦ inr (miss, rw miss at h)
]
settled key k d (c ∷ cs) rooms h = elim (Bool-cases (same k key)) [
  | inl hit ↦ inl ((same_iff k key).0 hit, rw hit at h)
  | inr miss ↦ inr (miss, rw miss at h)
]

-- Whoever is in a room after an exit was in it, and is not the one who left, if it is that room.
pub exit-IsIn :
    (key k : Text) (c d : ℕ) (rooms : Rooms)
    → is_empty key ≡ false
    → IsIn d k (exit key c rooms)
    → IsIn d k rooms × ((k ≡ key) → d ≢ c)
exit-IsIn key k c d rooms named h =
    let left : IsIn d k (leave_room key c (rooms key) rooms) = rw named at h in
    elim (Option-cases (rooms key)) [
      | inl nobody ↦
          let inside : IsIn d k rooms = rw nobody at left in
          (
            inside,
            λ e.
                let nobody_in : false ≡ true =
                  sym (ap (λ o. has_id d (members o)) (ap rooms e ∙ nobody)) ∙ inside in
                cc nobody_in,
          )
      | inr (cs, room) ↦
          let after : IsIn d k (settle_room key (delete c cs) rooms) = rw room at left in
          elim (settled key k d (delete c cs) rooms after) [
            | inl (same_key, kept) ↦
                let (apart, inside) = has-delete c d cs kept in
                (
                  ap (λ x. has_id d (members (rooms x))) same_key
                      ∙ ap (λ x. has_id d (members x)) room
                      ∙ inside,
                  λ e. apart,
                )
            | inr (miss, inside) ↦ (inside, λ e. cc (miss, (same_iff k key).1 e))
          ]
    ]

-- ===== src/Database/Rows.antt =====
-- Counting the rows of a sale that are in the reserved state, under each statement.
use flash_sale.Common.{
  ℕ, ◌+◌, ◌≡◌, Bool, true, false, ◌&&◌, not, none, some, List, [], ◌∷◌, count, arith, ◌==◌,
  if◌then◌else◌, Bool-cases, Option-cases, Option, inl, inr, ==_iff, ap, subst, ◌∙◌,
}
use flash_sale.Database.{
  ReservationRow, is_reserved, is_some, valid_confirmation, find_reservation, update_row, checked,
  keep, Tables, insert_reservation, may_insert_reservation, has_id, find_sale, has_item,
}

abbrev pub in_sale : ℕ → ReservationRow → Bool
in_sale sale r = r.sale_id == sale && is_reserved r.status

-- How many rows of the sale are reserved, expired or not.
abbrev pub reserved_rows : ℕ → List ReservationRow → ℕ
reserved_rows sale rs = count (in_sale sale) rs

abbrev pub AllValid : List ReservationRow → Type 0
AllValid [] = Unit {0}
AllValid (r ∷ rs) = (valid_confirmation r ≡ true) × AllValid rs

pub find-valid :
    (id : ℕ) (rs : List ReservationRow) (r : ReservationRow)
    → AllValid rs
    → find_reservation id rs ≡ some r
    → valid_confirmation r ≡ true
find-valid id [] r h e = cc
find-valid id (x ∷ rs) r h e = ground (arith, find-valid id rs r h.1)

pub find-id :
    (id : ℕ) (rs : List ReservationRow) (r : ReservationRow)
    → find_reservation id rs ≡ some r
    → r.id ≡ id
find-id id [] r e = cc
find-id id (x ∷ rs) r e = ground (arith, find-id id rs r)

-- A reserved row has no confirmation time.
pub reserved_unconfirmed :
    (r : ReservationRow)
    → valid_confirmation r ≡ true
    → is_reserved r.status ≡ true
    → r.confirmed_at ≡ none
reserved_unconfirmed r v h = ground arith

pub checked_valid :
    (r : ReservationRow) (rs : List ReservationRow)
    → valid_confirmation r ≡ true
    → checked r rs ≡ some (r ∷ rs)
checked_valid r rs h = rw h

-- The rows after an update that takes a reserved row out of that state.
pub record Leaves (r : ReservationRow) (rs rs' : List ReservationRow) : Type 0 where
  pub one_less :
      (sale : ℕ)
      → reserved_rows sale rs' + (if r.sale_id == sale then 1 else 0) ≡ reserved_rows sale rs
  pub still_valid : AllValid rs'

keep-Leaves :
    (x r : ReservationRow) (rs rs' : List ReservationRow)
    → valid_confirmation x ≡ true
    → Leaves r rs rs'
    → Leaves r (x ∷ rs) (x ∷ rs')
keep-Leaves x r rs rs' v h = record {
  one_less = λ sale. omega (arith, h.one_less sale);
  still_valid = (v, h.still_valid);
}

module _ (f : ReservationRow → ReservationRow) (r : ReservationRow)
    (is_res : is_reserved r.status ≡ true) (left : is_reserved (f r).status ≡ false)
    (ok_row : valid_confirmation (f r) ≡ true) where
  replace-Leaves : (rs : List ReservationRow) → AllValid rs → Leaves r (r ∷ rs) (f r ∷ rs)
  replace-Leaves rs h = record { one_less = λ sale. ground arith; still_valid = (ok_row, h) }

  pub update-Leaves :
      (id : ℕ) (rs : List ReservationRow)
      → AllValid rs
      → find_reservation id rs ≡ some r
      → (rs' : List ReservationRow) × (update_row f id rs ≡ some rs') × Leaves r rs rs'
  update-Leaves id [] h e = cc
  update-Leaves id (x ∷ rs) h e = elim (Bool-cases (x.id == id)) [
    | inl hit ↦
        let same_row : x ≡ r = ground arith in
        (
          f r ∷ rs,
          rw (hit, same_row) (checked_valid (f r) rs ok_row),
          rw same_row (replace-Leaves rs h.1),
        )
    | inr miss ↦
        let (rs', u, l) = update-Leaves id rs h.1 (ground arith) in
        (x ∷ rs', rw (miss, u), keep-Leaves x r rs rs' h.0 l)
  ]

and_last : (a b c d e : Bool) → (a && b && c && d && e) ≡ true → e ≡ true
and_last a b c d e h = ground arith

-- An inserted row is valid, and is all that changes.
pub insert_reservation-some :
    (r : ReservationRow) (t : Tables) {u : Tables}
    → insert_reservation r t ≡ some u
    → (record t { reservations = r ∷ t.reservations } ≡ u) × (valid_confirmation r ≡ true)
unfolding insert_reservation
insert_reservation-some r t {u} e = elim (Bool-cases (may_insert_reservation r t)) [
  | inl may ↦
      let written : some (record t { reservations = r ∷ t.reservations }) ≡ some u =
        rw (may, insert_reservation) at e in
      (
        cc,
        and_last (not (is_some (find_reservation r.id t.reservations))) (has_id r.user_id t.users)
            (is_some (find_sale r.sale_id t.sales)) (has_item r.item_id t.sale_items)
            (valid_confirmation r) may,
      )
  | inr may_not ↦ cc (rw (may_not, insert_reservation) at e)
]

-- The rows after an update of a row that was not reserved and still is not.
pub record SameCounts (rs rs' : List ReservationRow) : Type 0 where
  pub same_count : (sale : ℕ) → reserved_rows sale rs' ≡ reserved_rows sale rs
  pub all_valid : AllValid rs'

module _ (f : ReservationRow → ReservationRow) (r : ReservationRow)
    (not_res : is_reserved r.status ≡ false) (still_not : is_reserved (f r).status ≡ false)
    (ok_row : valid_confirmation (f r) ≡ true) where
  replace-SameCounts : (rs : List ReservationRow) → AllValid rs → SameCounts (r ∷ rs) (f r ∷ rs)
  replace-SameCounts rs h = record { same_count = λ sale. ground arith; all_valid = (ok_row, h) }

  pub update-SameCounts :
      (id : ℕ) (rs : List ReservationRow)
      → AllValid rs
      → find_reservation id rs ≡ some r
      → (rs' : List ReservationRow) × (update_row f id rs ≡ some rs') × SameCounts rs rs'
  update-SameCounts id [] h e = cc
  update-SameCounts id (x ∷ rs) h e = elim (Bool-cases (x.id == id)) [
    | inl hit ↦
        let same_row : x ≡ r = ground arith in
        (
          f r ∷ rs,
          rw (hit, same_row) (checked_valid (f r) rs ok_row),
          rw same_row (replace-SameCounts rs h.1),
        )
    | inr miss ↦
        let (rs', u, l) = update-SameCounts id rs h.1 (ground arith) in
        (
          x ∷ rs',
          rw (miss, u),
          record {
            same_count = λ sale. omega (arith, l.same_count sale);
            all_valid = (h.0, l.all_valid);
          },
        )
  ]

-- The row that an update leaves at its key.
pub find-update :
    (f : ReservationRow → ReservationRow) (id : ℕ) (rs rs' : List ReservationRow)
    (r : ReservationRow)
    → find_reservation id rs ≡ some r
    → (f r).id ≡ id
    → update_row f id rs ≡ some rs'
    → find_reservation id rs' ≡ some (f r)
find-update f id [] rs' r found same_id updated = cc
find-update f id (x ∷ rs) rs' r found same_id updated = elim (Bool-cases (x.id == id)) [
  | inl hit ↦
      let same_row : x ≡ r = ground arith in
      let written : checked (f x) rs ≡ some rs' = rw hit at updated in
      elim (Bool-cases (valid_confirmation (f x))) [
        | inl fits ↦
            let rows : some (f x ∷ rs) ≡ some rs' = rw fits at written in
            let at_head : ((f x).id == id) ≡ true =
              (==_iff (f x).id id).1 (ap (λ y. (f y).id) same_row ∙ same_id) in
            subst (λ o. find_in o ≡ some (f r)) rows (rw at_head (ap (λ y. some (f y)) same_row))
        | inr refused ↦ cc (rw refused at written)
      ]
  | inr miss ↦
      let further : find_reservation id rs ≡ some r = rw miss at found in
      let written : keep x (update_row f id rs) ≡ some rs' = rw miss at updated in
      elim (Option-cases (update_row f id rs)) [
        | inl refused ↦ cc (rw refused at written)
        | inr (later, kept) ↦
            let rows : some (x ∷ later) ≡ some rs' = rw kept at written in
            subst (λ o. find_in o ≡ some (f r)) rows
              (rw miss (find-update f id rs later r further same_id kept))
      ]
]
  where
    find_in : Option (List ReservationRow) → Option ReservationRow
    find_in none = none
    find_in (some l) = find_reservation id l

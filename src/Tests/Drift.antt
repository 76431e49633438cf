-- ===== src/Tests/Drift.antt =====
-- A world whose Redis has lost everything while PostgreSQL has a reservation of an active sale, and
-- the same world once the counters are right.
use flash_sale.Common.{
  ℕ, ◌+◌, ◌≤◌, ◌≡◌, refl, sym, ap, subst, ◌∙◌, some, [], ◌∷◌, arith, false, ◌==◌, ==_iff,
  Bool-cases, inl, inr, ◌⊎◌,
}
use flash_sale.Common.Int.{pos}
use flash_sale.Platform.Keyspace.{Entry, entries_at, num}
use flash_sale.Models.{SaleStatus, Sale}
use flash_sale.Database.{Tables, find_reservation, count_reserved}
use flash_sale.Effects.{World}
use flash_sale.Redis.Keys.{available_key, reserved_key, waitlist_key, sale_key}
use flash_sale.Redis.Apart.{waitlist_key-ne-available_key, waitlist_key-ne-reserved_key}
use flash_sale.Redis.Counters.{lookup-set_ne}
use flash_sale.Redis.Counts.{same-Counts}
use flash_sale.Redis.Setting.{
  set_available, set_pair, set_pair-SameAt, available-set_pair, reserved-set_pair,
}
use flash_sale.Reference.{memory, empty}
use flash_sale.Reservation.Sync.{InSync, reserved_in, sold_in}
use flash_sale.Inventory.{new_sale}
use flash_sale.Expiry.Promotion.{Waitlists}
use flash_sale.Waitlist.Sync.{zadd-Leaves}
use flash_sale.Reconcile.{active_sales}
use flash_sale.Reconcile.Sync.{Listed, Totals, Restorable, CountsAt}
use flash_sale.Tests.Scene.{input, blank, totals, first_row}

abbrev active_sale : Sale
active_sale = record (new_sale input 7 5) { status = SaleStatus.active }

abbrev pub rows : Tables
rows = record blank { sales = active_sale ∷ []; reservations = first_row ∷ [] }

abbrev pub lost : World memory
lost = record { redis = empty; db = rows; sent = []; faults = [] }

pub lost-Totals : Totals totals (active_sales lost.db.sales)
lost-Totals = (refl, tt)

unexpired : (b : ℕ) → count_reserved b 100 rows ≡ reserved_in rows b
unexpired b = ground arith

fits : (b : ℕ) → reserved_in rows b + sold_in rows b ≤ totals b
fits b = ground arith

pub lost-Restorable : Restorable memory totals 100 lost
lost-Restorable = record {
  calm = refl;
  rows_valid = (refl, tt);
  readable = λ b. (pos 0, pos 0, refl, refl);
  unexpired = unexpired;
  small = λ b. ground arith;
  fits = fits;
}

no_rows : (b : ℕ) → (b == 7) ≡ false → (reserved_in rows b ≡ 0) × (totals b ≡ 0)
no_rows b miss = ground arith

-- A sale without rows and stock has its counters, absent as they are, right.
elsewhere_right : (b : ℕ) → (b == 7) ≡ false → CountsAt memory totals lost b
elsewhere_right b miss =
    let (q, n) = no_rows b miss in
    record {
      small = omega (arith, n);
      within = fits b;
      available_held = ap some (ap pos (omega arith));
      reserved_held = ap some (ap pos (sym q));
    }

pub lost-covered : (b : ℕ) → CountsAt memory totals lost b ⊎ Listed b (active_sales lost.db.sales)
lost-covered b = elim (Bool-cases (b == 7)) [
  | inl hit ↦ inr (inl ((==_iff b 7).0 hit))
  | inr miss ↦ inl (elsewhere_right b miss)
]

abbrev pub right : World memory
right = record lost { redis = set_pair memory 7 (pos 1) (pos 1) empty }

right_at : (b : ℕ) → CountsAt memory totals right b
right_at b = elim (Bool-cases (b == 7)) [
  | inl hit ↦
      subst (λ d. CountsAt memory totals right d) (sym ((==_iff b 7).0 hit))
        (record {
          small = omega arith;
          within = omega arith;
          available_held = available-set_pair memory 7 (pos 1) (pos 1) empty;
          reserved_held = reserved-set_pair memory 7 (pos 1) (pos 1) empty;
        })
  | inr miss ↦
      same-Counts memory
        (set_pair-SameAt memory 7 (pos 1) (pos 1) empty b (λ e. cc (miss, (==_iff b 7).1 e)))
        (elsewhere_right b miss)
]

pub right-InSync : InSync memory totals right
right-InSync = record { calm = refl; rows_valid = (refl, tt); counts = right_at }

pub right-Waitlists : Waitlists memory right.redis
right-Waitlists b =
    let kw = waitlist_key memory b in
    let a = set_available memory 7 (pos 1) (pos 1) empty in
    (
      [],
      ap entries_at (
          lookup-set_ne memory (reserved_key memory 7) kw (num (pos 1)) 0 a
            (waitlist_key-ne-reserved_key memory b 7)
          ∙ lookup-set_ne memory (available_key memory 7) kw (num (pos 1)) 0 empty
              (waitlist_key-ne-available_key memory b 7)),
      tt,
    )

pub right-found : find_reservation 20 right.db.reservations ≡ some first_row
right-found = refl

-- The second user waits.
abbrev pub waiting_user : Entry
waiting_user = record { member = memory.uuid_string 2; score = 20 }

abbrev pub queued : World memory
queued = record right {
  redis = (memory.zadd (waitlist_key memory 7) 20 (memory.uuid_string 2) right.redis).1;
}

pub queued-InSync : InSync memory totals queued
queued-InSync = record {
  calm = refl;
  rows_valid = (refl, tt);
  counts = λ b.
      same-Counts memory ((zadd-Leaves memory 7 20 (memory.uuid_string 2)).same_at right.redis b)
        (right-InSync.counts b);
}

pub queued-held :
    entries_at (memory.lookup queued.redis (waitlist_key memory 7)) ≡ some (waiting_user ∷ [])
unfolding waitlist_key available_key reserved_key sale_key
queued-held = refl

-- ===== src/Reservation/Sync.antt =====
-- The invariant that ties Redis to PostgreSQL: the counters of every sale are what the rows say.
use flash_sale.Common.{ℕ, ◌≡◌, sym, ap, subst, []}
use flash_sale.Platform.{Platform}
use flash_sale.Database.{Tables, count_orders}
use flash_sale.Database.Rows.{reserved_rows, AllValid}
use flash_sale.Effects.{World, Action, redis_call}
use flash_sale.Effects.Keeps.{Preorder, Keeps}
use flash_sale.Redis.Counts.{AllCounts, same-Counts, recount}
use flash_sale.Redis.Script
use flash_sale.Redis.Leaves.{Leaves}
use flash_sale.Reservation.Quiet.{Quiet, quiet}

abbrev pub reserved_in : Tables → ℕ → ℕ
reserved_in t b = reserved_rows b t.reservations

abbrev pub sold_in : Tables → ℕ → ℕ
sold_in t b = count_orders b t

-- Of every sale, the reserved rows and the pending or paid orders fit into the total, the available
-- counter is what they leave of it, and the reserved counter is the number of reserved rows.
pub record InSync (E : Platform) (totals : ℕ → ℕ) (w : World E) : Type 0 where
  pub calm : w.faults ≡ []
  pub rows_valid : AllValid w.db.reservations
  pub counts : AllCounts E totals (reserved_in w.db) (sold_in w.db) w.redis

module _ (E : Platform) (totals : ℕ → ℕ) where
  pub Quiet-InSync : (w w' : World E) → Quiet E w w' → InSync E totals w → InSync E totals w'
  Quiet-InSync w w' h v = record {
    calm = h.calm v.calm;
    rows_valid = subst AllValid (sym (ap (λ t. t.reservations) h.tables)) v.rows_valid;
    counts = λ b.
        recount E (sym (ap (λ t. reserved_rows b t.reservations) h.tables))
          (sym (ap (λ t. count_orders b t) h.tables))
          (same-Counts E (h.stock.same_available b, h.stock.same_reserved b) (v.counts b));
  }

  abbrev pub sync : Preorder E
  sync = record {
    Rel = λ u v. InSync E totals u → InSync E totals v;
    reflexive = λ w h. h;
    transitive = λ u v w f g h. g (f h);
  }

  pub quiet-sync : {A : Type 0} (m : Action E A) → Keeps (quiet E) m → Keeps sync m
  quiet-sync m h = record { holds = λ w. Quiet-InSync w (m w).1 (h.holds w) }

  -- A script that leaves the counters alone, under any network faults.
  pub redis_call-sync :
      {A : Type 0} (f : Script.Script E.Store A) → Leaves E f → Keeps sync (redis_call f)
  unfolding redis_call
  redis_call-sync f h = record {
    holds = λ w v. record {
      calm = rw v.calm;
      rows_valid = v.rows_valid;
      counts = rw v.calm (λ b. same-Counts E (h.same_at w.redis b) (v.counts b));
    };
  }

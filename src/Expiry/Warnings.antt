-- ===== src/Expiry/Warnings.antt =====
-- notifyExpiringReservations: what it sends, and that it changes nothing else.
use flash_sale.Common.{ℕ, ◌-◌, List, [], ◌∷◌}
use flash_sale.Platform.{Platform}
use flash_sale.Models.{Event}
use flash_sale.Database.{ReservationRow}
use flash_sale.Effects.{Message}
use flash_sale.Effects.Keeps.{Keeps, pure-Keeps, attempt-Keeps, bind-Keeps, then-Keeps, if-Keeps}
use flash_sale.Redis.Keys.{user_channel}
use flash_sale.Reservation.{Service}
use flash_sale.Reservation.Quiet.{quiet, publish-Quiet}
use flash_sale.Reservation.Reserve.{db_query-Quiet}
use flash_sale.Reservation.Sync.{sync, quiet-sync}
use flash_sale.Expiry.{warn_each, notify_expiring_reservations}

-- The warnings of some rows, the newest first.
abbrev pub warnings : (E : Platform) → (ℕ → ℕ) → List ReservationRow → List Message → List Message
warnings E clock [] sent = sent
warnings E clock (r ∷ rs) sent = warnings E clock rs (
    record {
      channel = user_channel E r.user_id;
      event = Event.reservation_expiring (r.expires_at - clock r.id);
    }
    ∷ sent)

module _ (E : Platform) where
  warn_each-Quiet :
      (clock : ℕ → ℕ) (rs : List ReservationRow) → Keeps (quiet E) (warn_each E clock rs)
  unfolding warn_each
  warn_each-Quiet clock [] = pure-Keeps (quiet E) tt
  warn_each-Quiet clock (r ∷ rs) =
      then-Keeps (quiet E) _ _ (attempt-Keeps (quiet E) _ (publish-Quiet E _ _))
        (warn_each-Quiet clock rs)

  pub notify_expiring_reservations-sync :
      (totals : ℕ → ℕ) (h : Service) (now : ℕ) (clock : ℕ → ℕ)
      → Keeps (sync E totals) (notify_expiring_reservations E h now clock)
  unfolding notify_expiring_reservations
  notify_expiring_reservations-sync totals h now clock = quiet-sync E totals _ (
      if-Keeps (quiet E) h.has_publisher _ _
        (bind-Keeps (quiet E) _ _ (db_query-Quiet E _) (λ rows. warn_each-Quiet clock rows))
        (pure-Keeps (quiet E) tt))

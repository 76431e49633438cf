-- ===== src/Api/Reservations.antt =====
-- internal/api/handlers/reservations.go
use flash_sale.Common.{ℕ, Option, Text, codes}
use flash_sale.Platform.{Platform}
use flash_sale.Models.{Reservation, Order}
use flash_sale.Effects.{Result, ok, err, Error}
use flash_sale.Reservation.{Service}
use flash_sale.Reservation
use flash_sale.Reservation.Confirmation
use flash_sale.Api.{
  Content, message, failure, Response, http_error, json_reply, no_content, Handler, respond,
  with_id, with_body,
}

pub record ReserveRequest : Type 0 where
  pub user_id : ℕ
  pub item_id : ℕ

abbrev pub reserve_reply : Result Reservation → Response
reserve_reply (ok r) = json_reply 201 (Content.reservation r)
reserve_reply (err Error.sold_out) = http_error 409 (message (codes "Sold out"))
reserve_reply (err e) = http_error 500 (failure e)

abbrev pub confirm_reply : Result Order → Response
confirm_reply (ok o) = json_reply 200 (Content.order o)
confirm_reply (err e) = http_error 500 (failure e)

abbrev pub release_reply : Result (Unit {0}) → Response
release_reply (ok _) = no_content
release_reply (err e) = http_error 500 (failure e)

module _ (E : Platform) where
  -- ReservationsHandler.Reserve; `id` and `now` are what the service draws.
  unfoldable pub reserve : Service → Text → Option ReserveRequest → Text → ℕ → ℕ → Handler E
  reserve svc sale_text body key id now =
      with_id (codes "Invalid sale ID") (E.parse_uuid sale_text) λ sale. with_body body λ req.
        respond reserve_reply (Reservation.reserve E svc req.user_id sale req.item_id key id now)

  -- ReservationsHandler.Confirm
  unfoldable pub confirm : Text → Text → ℕ → ℕ → Handler E
  confirm id_text key order_id now =
      with_id (codes "Invalid reservation ID") (E.parse_uuid id_text)
        λ id. respond confirm_reply (Confirmation.confirm E id key order_id now)

  -- ReservationsHandler.Release
  unfoldable pub release : Service → Text → Handler E
  release svc id_text =
      with_id (codes "Invalid reservation ID") (E.parse_uuid id_text)
        λ id. respond release_reply (Reservation.release E svc id)

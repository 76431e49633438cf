-- ===== src/Api/Waitlists.antt =====
-- internal/api/handlers/waitlist.go. A request to join or to leave is the user's identifier.
use flash_sale.Common.{ℕ, Option, Text, codes, if◌then◌else◌}
use flash_sale.Platform.{Platform}
use flash_sale.Effects.{Result, ok, err, Error}
use flash_sale.Reservation.{is_empty}
use flash_sale.Waitlist.{JoinResponse, PositionResponse}
use flash_sale.Waitlist
use flash_sale.Api.{
  Content, message, failure, Response, http_error, json_reply, no_content, bad_request, Handler,
  answer_with, respond, with_id, with_body,
}

abbrev pub join_reply : Result JoinResponse → Response
join_reply (ok r) = json_reply 201 (Content.joined r)
join_reply (err Error.stock_available) =
    http_error 409 (message (codes "Stock available, please reserve directly"))
join_reply (err Error.already_waiting) = http_error 409 (message (codes "Already in waitlist"))
join_reply (err e) = http_error 500 (failure e)

abbrev pub position_reply : Result PositionResponse → Response
position_reply (ok r) = json_reply 200 (Content.position r)
position_reply (err e) = http_error 404 (message (codes "User not in waitlist"))

abbrev pub leave_reply : Result (Unit {0}) → Response
leave_reply (ok _) = no_content
leave_reply (err e) = http_error 500 (failure e)

module _ (E : Platform) where
  -- WaitlistHandler.Join
  unfoldable pub join : Text → Option ℕ → ℕ → Handler E
  join sale_text body now =
      with_id (codes "Invalid sale ID") (E.parse_uuid sale_text)
        λ sale. with_body body λ user. respond join_reply (Waitlist.join E sale user now)

  -- WaitlistHandler.GetPosition; the user is a query parameter, empty where it is missing.
  unfoldable pub get_position : Text → Text → Handler E
  get_position sale_text user_text =
      with_id (codes "Invalid sale ID") (E.parse_uuid sale_text) λ sale.
        if is_empty user_text
        then answer_with (bad_request (codes "user_id query parameter required"))
        else with_id (codes "Invalid user ID") (E.parse_uuid user_text)
            λ user. respond position_reply (Waitlist.get_position E sale user)

  -- WaitlistHandler.Leave
  unfoldable pub leave : Text → Option ℕ → Handler E
  leave sale_text body =
      with_id (codes "Invalid sale ID") (E.parse_uuid sale_text)
        λ sale. with_body body λ user. respond leave_reply (Waitlist.leave E sale user)

-- ===== src/Api/Malformed.antt =====
-- Which requests are refused with 400, and that they change nothing.
use flash_sale.Common.{◌≡◌, ◌≢◌, Text, Bool, true, false, not, ◌||◌}
use flash_sale.Platform.{Platform}
use flash_sale.Database.{is_some}
use flash_sale.Effects.{World, ok}
use flash_sale.Reservation.{is_empty}
use flash_sale.Waitlist.{JoinResponse, PositionResponse}
use flash_sale.Waitlist
use flash_sale.RateLimit.{Verdict, allow}
use flash_sale.Api.{Handler, Response}
use flash_sale.Api.Reservations
use flash_sale.Api.Sales
use flash_sale.Api.Waitlists
use flash_sale.Api.Orders
use flash_sale.Api.Router.{
  Route, Request, Server, limited_user, healthz, create_sale, get_sale, update_status, reserve,
  join_waitlist, waitlist_position, leave_waitlist, confirm, release, get_order,
}

-- A path parameter or a query parameter that is no identifier, or a body that does not decode.
module _ (E : Platform) where
  no_id : Text → Bool
  no_id t = not (is_some (E.parse_uuid t))

  unfoldable pub malformed : Route → Bool
  unfolding no_id
  malformed healthz = false
  malformed (create_sale body) = not (is_some body)
  malformed (get_sale id) = no_id id
  malformed (update_status id body) = no_id id || not (is_some body)
  malformed (reserve id body) = no_id id || not (is_some body)
  malformed (join_waitlist id body) = no_id id || not (is_some body)
  malformed (waitlist_position id user) = no_id id || (is_empty user || no_id user)
  malformed (leave_waitlist id body) = no_id id || not (is_some body)
  malformed (confirm id) = no_id id
  malformed (release id) = no_id id
  malformed (get_order id) = no_id id

  -- A handler answers 400 exactly where a test says so, and then changes nothing.
  record Judges (bad : Bool) (h : Handler E) : Type 0 where
    refuses : (w : World E) → bad ≡ true → ((h w).0.status ≡ 400) × ((h w).1 ≡ w)
    serves : (w : World E) → bad ≡ false → (h w).0.status ≢ 400

-- The rate limiter lets the request through, where it stands in front of the route.
abbrev pub Passes : (E : Platform) → Server → Request → World E → Route → Type 0
Passes E srv req w (reserve id body) =
    (v : Verdict) × ((allow E srv.limiter (limited_user req) req.now_ms w).0 ≡ ok v)
    × (v.allowed ≡ true)
Passes E srv req w (join_waitlist id body) =
    (v : Verdict) × ((allow E srv.limiter (limited_user req) req.now_ms w).0 ≡ ok v)
    × (v.allowed ≡ true)
Passes E srv req w other = Unit {0}

-- The state that the route's handler starts from.
abbrev pub reached : {E : Platform} → Server → Request → World E → Route → World E
reached {E} srv req w (reserve id body) = (allow E srv.limiter (limited_user req) req.now_ms w).1
reached {E} srv req w (join_waitlist id body) =
    (allow E srv.limiter (limited_user req) req.now_ms w).1
reached srv req w other = w

module _ (E : Platform) (srv : Server) (req : Request) (w : World E) where
  -- What a route answers, by whether its request is malformed.
  Judged : Bool → World E → Response × World E → Type 0
  Judged bad u p =
      ((bad ≡ true) → (p.0.status ≡ 400) × (p.1 ≡ u)) × ((bad ≡ false) → p.0.status ≢ 400)

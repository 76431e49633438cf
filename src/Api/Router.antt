-- ===== src/Api/Router.antt =====
-- internal/api/router.go: the routes with their handlers, and internal/api/ratelimit_middleware.go in
-- front of two of them. The router (chi) finds the route of a request; what serving it draws,
-- an identifier and the time, is part of the request here. The middleware that logs, traces and
-- counts is left out, and so are the scrape endpoint and the upgrade to a WebSocket.
use flash_sale.Common.{ℕ, Option, Bool, true, false, Text, codes, [], ◌∷◌, if◌then◌else◌}
use flash_sale.Platform.{Platform}
use flash_sale.Common.Int.{pos}
use flash_sale.Models.{SaleStatus}
use flash_sale.Effects.{Result, ok, err}
use flash_sale.Inventory.{SaleInput}
use flash_sale.Reservation.{Service, is_empty}
use flash_sale.RateLimit.{Limiter, Verdict, allow}
use flash_sale.Api.{
  Response, message, http_error, retry_after, rate_limit_remaining, Handler, answer_with,
}
use flash_sale.Api.Reservations.{ReserveRequest}
use flash_sale.Api.Reservations
use flash_sale.Api.Sales
use flash_sale.Api.Waitlists
use flash_sale.Api.Orders

pub data Route : Type 0 where
  healthz : Route
  create_sale : Option SaleInput → Route
  get_sale : Text → Route
  update_status : Text → Option SaleStatus → Route
  reserve : Text → Option ReserveRequest → Route
  join_waitlist : Text → Option ℕ → Route
  waitlist_position : Text → Text → Route
  leave_waitlist : Text → Option ℕ → Route
  confirm : Text → Route
  release : Text → Route
  get_order : Text → Route

pub record Request : Type 0 where
  pub route : Route
  -- the header X-User-ID and the address of the peer
  pub user_header : Text
  pub remote_addr : Text
  -- the header Idempotency-Key
  pub idempotency_key : Text
  -- an identifier from uuid.New, and the time in seconds and in milliseconds
  pub fresh_id : ℕ
  pub now : ℕ
  pub now_ms : ℕ

-- What the server is started with, and whether the reconciliation at startup is complete.
pub record Server : Type 0 where
  pub service : Service
  pub limiter : Limiter
  pub reconciliation_complete : Bool

abbrev pub limited_user : Request → Text
limited_user req = if is_empty req.user_header then req.remote_addr else req.user_header

abbrev pub health : Bool → Response
health false = http_error 503 (message (codes "Reconciliation in progress"))
health true = http_error 200 (message (codes "OK"))

module _ (E : Platform) where
  abbrev pub with_remaining : Verdict → Response → Response
  with_remaining v r = record r { headers = rate_limit_remaining v.remaining ∷ r.headers }

  abbrev pub limit_reached : Response
  limit_reached = record {
    status = 429;
    headers = retry_after 1 ∷ rate_limit_remaining (pos 0) ∷ [];
    content = message (codes "Rate limit exceeded");
  }

  abbrev pub pass_on : Verdict → Handler E → Handler E
  pass_on v next w = let (r, w') = next w in (with_remaining v r, w')

  abbrev pub settle_limit : Handler E → Result Verdict → Handler E
  settle_limit next (err e) = answer_with (http_error 500 (message (codes "Rate limiter error")))
  settle_limit next (ok v) = if v.allowed then pass_on v next else answer_with limit_reached

  -- RateLimitMiddleware
  unfoldable pub rate_limited : Limiter → Request → Handler E → Handler E
  rate_limited lim req next w =
      let (r, w') = allow E lim (limited_user req) req.now_ms w in settle_limit next r w'

  abbrev pub dispatch : Server → Request → Route → Handler E
  dispatch srv req healthz = answer_with (health srv.reconciliation_complete)
  dispatch srv req (create_sale body) = Sales.create_sale E body req.fresh_id req.now
  dispatch srv req (get_sale id) = Sales.get_sale E id
  dispatch srv req (update_status id body) = Sales.update_status E id body
  dispatch srv req (reserve id body) =
      rate_limited srv.limiter req
        (Reservations.reserve E srv.service id body req.idempotency_key req.fresh_id req.now)
  dispatch srv req (join_waitlist id body) =
      rate_limited srv.limiter req (Waitlists.join E id body req.now)
  dispatch srv req (waitlist_position id user) = Waitlists.get_position E id user
  dispatch srv req (leave_waitlist id body) = Waitlists.leave E id body
  dispatch srv req (confirm id) = Reservations.confirm E id req.idempotency_key req.fresh_id req.now
  dispatch srv req (release id) = Reservations.release E srv.service id
  dispatch srv req (get_order id) = Orders.get_order E id

  -- What the router does with a request.
  unfoldable pub serve : Server → Request → Handler E
  serve srv req = dispatch srv req req.route

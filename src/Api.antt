-- ===== src/Api.antt =====
-- internal/api: what the HTTP layer answers. A request is what the router and the decoder make of it:
-- a path parameter is its text, a JSON body is the record that encoding/json decodes, or nothing
-- where it refuses. A response has a status, the headers that the program sets itself, and the value
-- that its body encodes.
pub mod Reservations
pub mod Sales
pub mod Waitlists
pub mod Orders
pub mod Router
pub mod Kept
pub mod Safe
pub mod Replies
pub mod Malformed
pub mod Idempotency
pub mod Replay
use flash_sale.Common.{ℕ, Option, none, some, List, [], ◌∷◌, Text, codes}
use flash_sale.Common.Int.{ℤ}
use flash_sale.Platform.{Platform}
use flash_sale.Models.{Reservation, Order, Sale}
use flash_sale.Effects.{World, Result, Error, Action}
use flash_sale.Inventory.{SaleStats}
use flash_sale.Waitlist.{JoinResponse, PositionResponse}

pub data Header : Type 0 where
  json : Header
  retry_after : ℕ → Header
  rate_limit_remaining : ℤ → Header
  idempotency_replayed : Header

-- `failure` is the message of an error of the services.
pub data Content : Type 0 where
  nothing : Content
  message : Text → Content
  failure : Error → Content
  reservation : Reservation → Content
  order : Order → Content
  sale : Sale → Option SaleStats → Content
  joined : JoinResponse → Content
  position : PositionResponse → Content

pub record Response : Type 0 where
  pub status : ℕ
  pub headers : List Header
  pub content : Content

-- http.Error
abbrev pub http_error : ℕ → Content → Response
http_error status content = record { status = status; headers = []; content = content }

-- A JSON response with a status.
abbrev pub json_reply : ℕ → Content → Response
json_reply status content = record { status = status; headers = json ∷ []; content = content }

abbrev pub no_content : Response
no_content = record { status = 204; headers = []; content = nothing }

abbrev pub bad_request : Text → Response
bad_request reason = http_error 400 (message reason)

-- A handler answers in every case, and may have changed the state.
abbrev pub Handler : Platform → Type 0
Handler E = World E → Response × World E

abbrev pub answer_with : {E : Platform} → Response → Handler E
answer_with r w = (r, w)

-- A handler calls one method of a service and answers by its result.
abbrev pub respond : {E : Platform} {A : Type 0} → (Result A → Response) → Action E A → Handler E
respond reply m w = let (r, w') = m w in (reply r, w')

-- `uuid.Parse(chi.URLParam(r, "id"))`, and the refusal.
abbrev pub with_id : {E : Platform} → Text → Option ℕ → (ℕ → Handler E) → Handler E
with_id reason none h = answer_with (bad_request reason)
with_id reason (some id) h = h id

-- `json.NewDecoder(r.Body).Decode(&req)`, and the refusal.
abbrev pub with_body : {E : Platform} {A : Type 0} → Option A → (A → Handler E) → Handler E
with_body none h = answer_with (bad_request (codes "Invalid request body"))
with_body (some b) h = h b

-- ===== src/Socket.antt =====
-- internal/websocket/handler.go: the handler that opens a WebSocket connection to a sale. Whether the
-- library upgrades the connection is an argument, and so is the JSON of the first message. The hub
-- handles the registration before the message is sent: the channel is new, so the send does not wait.
pub mod Follow
pub mod Spelling
use flash_sale.Common.{
  ℕ, Bool, true, false, Option, none, some, [], ◌∷◌, ◌++◌, Text, codes, if◌then◌else◌,
}
use flash_sale.Common.Int.{ℤ}
use flash_sale.Platform.{Platform}
use flash_sale.Reservation.{is_empty}
use flash_sale.Models.{Sale}
use flash_sale.Effects.{World, Result, ok, err}
use flash_sale.Inventory.{SaleStats, get_sale}
use flash_sale.Hub.{Hub, Client, set_client, subscribe}
use flash_sale.Api.{Response, bad_request}

-- The services' state and the hub.
pub record Live (E : Platform) : Type 0 where
  pub world : World E
  pub hub : Hub

-- What the peer gets: an answer of the handler, one of the upgrade that failed, or the connection.
pub data Handshake : Type 0 where
  answered : Response → Handshake
  not_upgraded : Handshake
  connected : Handshake

-- NewClient
abbrev pub new_client : Client
new_client = record { sale_id = []; user_id = []; queue = []; closed = false }

abbrev pub accept : ℕ → Hub → Hub
accept c h = record h { clients = set_client c new_client h.clients }

-- `client.send <- msgBytes`
abbrev pub push : ℕ → Text → Hub → Hub
push c payload h =
    let x = h.clients c in
    record h { clients = set_client c (record x { queue = x.queue ++ (payload ∷ []) }) h.clients }

-- The parsed identifier is not what is kept: the text of the request is.
abbrev pub if_parsed : Text → Option ℕ → Text
if_parsed user none = []
if_parsed user (some id) = user

module _ (E : Platform) where
  abbrev pub user_topic : Text → Text
  user_topic user = if is_empty user then [] else if_parsed user (E.parse_uuid user)

  module _ (snapshot : ℤ → Text) where
    abbrev pub send_snapshot : ℕ → Result (Sale × SaleStats) → Hub → Hub
    send_snapshot c (err e) h = h
    send_snapshot c (ok (sale, stats)) h = push c (snapshot stats.available) h

    abbrev pub open_connection : ℕ → Text → ℕ → Live E → Handshake × Live E
    open_connection sale user c s =
        let h = subscribe (E.uuid_string sale) (user_topic user) c (accept c s.hub) in
        let (r, w) = get_sale E sale s.world in
        (connected, record { world = w; hub = send_snapshot c r h })

    abbrev pub after_parse : Option ℕ → Text → Bool → ℕ → Live E → Handshake × Live E
    after_parse none user upgrades c s = (answered (bad_request (codes "Invalid sale ID")), s)
    after_parse (some sale) user false c s = (not_upgraded, s)
    after_parse (some sale) user true c s = open_connection sale user c s

    -- Handler.HandleWebSocket; `c` is the new client.
    unfoldable pub handle_web_socket : Text → Text → Bool → ℕ → Live E → Handshake × Live E
    handle_web_socket sale user upgrades c s = after_parse (E.parse_uuid sale) user upgrades c s

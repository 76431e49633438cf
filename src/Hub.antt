-- ===== src/Hub.antt =====
-- internal/websocket/hub.go: the rooms of a sale and of a user, and the clients in them. A client is
-- a number that stands for its pointer. `none` is a panic of the hub's goroutine: the close of a
-- closed channel, or a send on one.
pub mod Rooms
pub mod Safety
pub mod Delivery
pub mod Slow
pub mod Pump
pub mod Flow
pub mod InOrder
use flash_sale.Common.{
  ℕ, Bool, true, false, not, Option, none, some, List, [], ◌∷◌, ◌++◌, Text, length, ltb, ◌==◌,
  if◌then◌else◌,
}
use flash_sale.Platform.Keyspace.{put, clear}
use flash_sale.Database.{has_id}
use flash_sale.Reservation.{is_empty}

-- A client's part that the hub uses: what it has subscribed to, and its channel, with the payloads
-- that wait in it.
pub record Client : Type 0 where
  pub sale_id : Text
  pub user_id : Text
  pub queue : List Text
  pub closed : Bool

abbrev pub Rooms : Type 0
Rooms = Text → Option (List ℕ)

-- The unregistrations that the hub has started itself, with `go h.Unregister(client)`, are kept until
-- they are handled.
pub record Hub : Type 0 where
  pub rooms : Rooms
  pub user_rooms : Rooms
  pub clients : ℕ → Client
  pub unregistering : List ℕ

abbrev pub new_hub : (ℕ → Client) → Hub
new_hub clients = record {
  rooms = λ k. none;
  user_rooms = λ k. none;
  clients = clients;
  unregistering = [];
}

-- The clients of a room; ranging over a nil map is ranging over nothing.
abbrev pub members : Option (List ℕ) → List ℕ
members none = []
members (some cs) = cs

abbrev pub insert : ℕ → List ℕ → List ℕ
insert c cs = if has_id c cs then cs else c ∷ cs

abbrev pub delete : ℕ → List ℕ → List ℕ
delete c [] = []
delete c (d ∷ cs) = let rest = delete c cs in if d == c then rest else d ∷ rest

-- `if key != "" { … rooms[key][client] = true }`
abbrev pub enter : Text → ℕ → Rooms → Rooms
enter key c rooms = if is_empty key then rooms else put key (insert c (members (rooms key))) rooms

-- `if len(clients) == 0 { delete(rooms, key) }`
abbrev pub settle_room : Text → List ℕ → Rooms → Rooms
settle_room key [] rooms = clear key rooms
settle_room key (c ∷ cs) rooms = put key (c ∷ cs) rooms

abbrev pub leave_room : Text → ℕ → Option (List ℕ) → Rooms → Rooms
leave_room key c none rooms = rooms
leave_room key c (some cs) rooms = settle_room key (delete c cs) rooms

abbrev pub exit : Text → ℕ → Rooms → Rooms
exit key c rooms = if is_empty key then rooms else leave_room key c (rooms key) rooms

abbrev pub set_client : ℕ → Client → (ℕ → Client) → ℕ → Client
set_client c x clients d = if d == c then x else clients d

-- Run, on a registration.
abbrev pub register : Text → Text → ℕ → Hub → Hub
register sale user c h = record h {
  rooms = enter sale c h.rooms;
  user_rooms = enter user c h.user_rooms;
}

-- Hub.Subscribe sets the client's fields and sends the registration, which Run then handles.
unfoldable pub subscribe : Text → Text → ℕ → Hub → Hub
subscribe sale user c h = register sale user c (record h {
  clients = set_client c (record (h.clients c) { sale_id = sale; user_id = user }) h.clients;
})

-- Run, on an unregistration.
unfoldable pub unregister : ℕ → Hub → Option Hub
unregister c h =
    let x = h.clients c in
    if x.closed
    then none
    else some (record h {
      rooms = exit x.sale_id c h.rooms;
      user_rooms = exit x.user_id c h.user_rooms;
      clients = set_client c (record x { closed = true }) h.clients;
    })

-- A select with a default: the payload is queued, or the unregistration of the client is started.
abbrev pub enqueue : ℕ → Text → Hub → Hub
enqueue c payload h =
    let x = h.clients c in
    if ltb (length x.queue) 256
    then record h {
      clients = set_client c (record x { queue = x.queue ++ (payload ∷ []) }) h.clients;
    }
    else record h { unregistering = c ∷ h.unregistering }

abbrev pub send : ℕ → Text → Hub → Option Hub
send c payload h = if (h.clients c).closed then none else some (enqueue c payload h)

abbrev pub send_rest : (Hub → Option Hub) → Option Hub → Option Hub
send_rest f none = none
send_rest f (some h) = f h

unfoldable pub send_each : List ℕ → Text → Hub → Option Hub
send_each [] payload h = some h
send_each (c ∷ cs) payload h = send_rest (send_each cs payload) (send c payload h)

-- Run, on a broadcast.
unfoldable pub broadcast : Text → Text → Hub → Option Hub
broadcast sale payload h = send_each (members (h.rooms sale)) payload h

-- Hub.PublishToUser
unfoldable pub publish_to_user : Text → Text → Hub → Option Hub
publish_to_user user payload h = send_each (members (h.user_rooms user)) payload h

-- The write pump takes what waits in the channel.
unfoldable pub drain : ℕ → Hub → Hub
drain c h = record h { clients = set_client c (record (h.clients c) { queue = [] }) h.clients }

-- ===== src/Streams.antt =====
-- internal/streams/logger.go: the events of a sale, written to a Redis stream and read by a consumer of a
-- group. A stream's message has an identifier and fields that are texts; the printing of a number
-- is Redis's client's. The loop of the consumer is one batch of a read after another; a batch is an
-- argument, since Redis answers the read. Field names that differ from a tag by case only are left
-- out.
pub mod Unread
use flash_sale.Common.{
  ℕ, Bool, true, false, Option, none, some, List, [], ◌∷◌, ◌++◌, Text, codes, same, if◌then◌else◌,
}
use flash_sale.Platform.{Platform}
use flash_sale.Reservation.{is_empty}
use flash_sale.Redis.Keys.{sale_key}

pub record StreamEvent : Type 0 where
  pub kind : Text
  pub user_id : Text
  pub reservation_id : Text
  pub sale_id : Text
  pub timestamp : ℕ

abbrev pub Fields : Type 0
Fields = List (Text × Text)

pub record StreamMessage : Type 0 where
  pub id : Text
  pub values : Fields

-- `if event.UserID != "" { values["user_id"] = event.UserID }`
abbrev pub optional : Text → Text → Fields → Fields
optional name value rest = if is_empty value then rest else (name, value) ∷ rest

-- The values of XADD; `decimal` prints the time.
unfoldable pub event_values : (ℕ → Text) → StreamEvent → Fields
event_values decimal e =
    (codes "type", e.kind)
    ∷ (codes "timestamp", decimal e.timestamp)
    ∷ optional (codes "user_id") e.user_id (
        optional (codes "reservation_id") e.reservation_id
          (optional (codes "sale_id") e.sale_id []))

module _ (E : Platform) where
  unfoldable pub events_key : ℕ → Text
  unfolding sale_key
  events_key sale = sale_key E sale (codes ":events")

-- What the consumer asks XREADGROUP for: a key, which is not a pattern.
abbrev pub consumed_key : Text
consumed_key = codes "sale:*:events"

-- The stream store: the messages at each key, oldest first.
abbrev pub Streams : Type 0
Streams = Text → List StreamMessage

-- LogEvent, with the identifier that XADD gives the message.
unfoldable pub log_event : (E : Platform) → (ℕ → Text) → ℕ → StreamEvent → Text → Streams → Streams
unfolding events_key
log_event E decimal sale e id streams k =
    if same k (events_key E sale)
    then streams k ++ (record { id = id; values = event_values decimal e } ∷ [])
    else streams k

abbrev pub field : Text → Fields → Option Text
field name [] = none
field name ((k, v) ∷ fs) = if same k name then some v else field name fs

abbrev pub or_empty : Option Text → Text
or_empty none = []
or_empty (some t) = t

-- The JSON of a map of texts, decoded into a StreamEvent: a text in the place of the number
-- `timestamp` is an error.
abbrev pub decode_rest : Fields → Option Text → Option StreamEvent
decode_rest fs (some t) = none
decode_rest fs none = some (record {
  kind = or_empty (field (codes "type") fs);
  user_id = or_empty (field (codes "user_id") fs);
  reservation_id = or_empty (field (codes "reservation_id") fs);
  sale_id = or_empty (field (codes "sale_id") fs);
  timestamp = 0;
})

unfoldable pub decode : Fields → Option StreamEvent
decode fs = decode_rest fs (field (codes "timestamp") fs)

-- A handler works on a state and says whether it went well.
abbrev pub EventHandler : Type 0 → Type 0
EventHandler S = StreamEvent → S → Bool × S

-- The handlers' state, and what is acknowledged: stream and message, in order.
pub record Consumer (S : Type 0) : Type 0 where
  pub state : S
  pub acked : List (Text × Text)

module _ {S : Type 0} where
  abbrev pub acknowledge : Text → Text → Bool × S → Consumer S → Consumer S
  acknowledge stream id (true, s) c = record { state = s; acked = c.acked ++ ((stream, id) ∷ []) }
  acknowledge stream id (false, s) c = record c { state = s }

  abbrev pub handle_event :
      EventHandler S → Text → Text → Option StreamEvent → Consumer S → Consumer S
  handle_event handler stream id none c = c
  handle_event handler stream id (some e) c = acknowledge stream id (handler e c.state) c

  unfoldable pub consume_stream :
      EventHandler S → Text → List StreamMessage → Consumer S → Consumer S
  consume_stream handler stream [] c = c
  consume_stream handler stream (m ∷ ms) c =
      consume_stream handler stream ms (handle_event handler stream m.id (decode m.values) c)

  -- StartConsumer, on what one read returns; an error of the read, `none`, is logged.
  unfoldable pub consume_batch :
      EventHandler S → Option (List (Text × List StreamMessage)) → Consumer S → Consumer S
  unfolding consume_stream
  consume_batch handler none c = c
  consume_batch handler (some []) c = c
  consume_batch handler (some ((stream, ms) ∷ rest)) c =
      consume_batch handler (some rest) (consume_stream handler stream ms c)

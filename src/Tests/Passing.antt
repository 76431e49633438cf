-- ===== src/Tests/Passing.antt =====
-- The theorems on what passes from the services to the clients, and on two calls at once, each at a run.
use flash_sale.Common.{
  ℕ, ◌+◌, ◌-◌, ◌≡◌, refl, true, false, some, List, [], ◌∷◌, ◌++◌, Text, codes, map, arith,
}
use flash_sale.Common.Int.{pos, ◌-ℤ◌}
use flash_sale.Reference.{memory}
use flash_sale.Redis.Keys.{available_key, reserved_key, pubsub_channel}
use flash_sale.Redis.Counters.{counter}
use flash_sale.Reservation.{release, release_row}
use flash_sale.Reservation.Sync.{reserved_in, sold_in}
use flash_sale.Reservation.Race.{release_twice_drifts}
use flash_sale.Database.{has_id}
use flash_sale.Hub.{Hub, Client, new_hub, subscribe, members}
use flash_sale.Hub.Pump.{queued, shut, ready, tick, PumpEvent, new_pump, pump_all}
use flash_sale.Hub.Flow.{texts, frame_of, payloads, Batch}
use flash_sale.Hub.InOrder.{accepted, pump_in_order}
use flash_sale.Server.{split_channel, fan_out_sale}
use flash_sale.Server.Split.{split_n, split_channel-split_n}
use flash_sale.Server.Fanout.{Delivered, Listens, sale_event_reaches_room}
use flash_sale.Streams.{
  StreamEvent, StreamMessage, event_values, log_event, consumed_key, consume_batch, EventHandler,
  Consumer,
}
use flash_sale.Streams.Unread.{logged_events_unhandled}
use flash_sale.Tests.Scene.{service, totals, first_row}
use flash_sale.Tests.Drift.{right, right-InSync}

release_twice_drifts_example :
    let w1 = (release memory service 20 right).1 in
    let w2 = (release_row memory service first_row w1).1 in
    let q = reserved_in w2.db 7 in
    let o = sold_in w2.db 7 in
    (q + 1 ≡ reserved_in right.db 7)
    × (o ≡ sold_in right.db 7)
    × (counter memory w2.redis (available_key memory 7) ≡ some (pos (totals 7 - (q + o) + 1)))
    × (counter memory w2.redis (reserved_key memory 7) ≡ some (pos q -ℤ pos 1))
release_twice_drifts_example =
    release_twice_drifts memory totals service right 20 first_row right-InSync refl refl

split_channel-split_n_example :
    split_channel (codes "sale:7:pub:sub") ≡ split_n 2 (codes "sale:7:pub:sub")
split_channel-split_n_example = split_channel-split_n (codes "sale:7:pub:sub")

abbrev quiet_client : ℕ → Client
quiet_client c = record { sale_id = []; user_id = []; queue = []; closed = false }

abbrev watched : Hub
unfolding subscribe
watched = subscribe (memory.uuid_string 7) [] 5 (new_hub quiet_client)

one-Listens :
    (c : ℕ) → has_id c (members (watched.rooms (memory.uuid_string 7))) ≡ true → Listens watched c
unfolding subscribe
one-Listens c inside = ground arith

sale_event_reaches_room_example :
    (h' : Hub) × (fan_out_sale (pubsub_channel memory 7) (codes "{}") watched ≡ some h')
    × Delivered (members (watched.rooms (memory.uuid_string 7))) (codes "{}") watched h'
unfolding subscribe
sale_event_reaches_room_example =
    sale_event_reaches_room memory 7 (codes "{}") watched (refl, tt) one-Listens

abbrev tally : EventHandler ℕ
tally e n = (true, n + 1)

abbrev one_digit : ℕ → Text
one_digit n = (n + 48) ∷ []

abbrev event : StreamEvent
event = record {
  kind = codes "reserved";
  user_id = codes "u";
  reservation_id = [];
  sale_id = [];
  timestamp = 5;
}

abbrev logged : StreamMessage
unfolding event_values
logged = record { id = codes "1-0"; values = event_values one_digit event }

abbrev idle : Consumer ℕ
idle = record { state = 0; acked = [] }

logged_events_unhandled_example :
    (log_event memory one_digit 7 event (codes "1-0") (λ k. []) consumed_key ≡ [])
    × (consume_batch tally (some ((consumed_key, logged ∷ []) ∷ [])) idle ≡ idle)
unfolding event_values
logged_events_unhandled_example =
    logged_events_unhandled tally one_digit memory 7 event (codes "1-0") (λ k. [])
      ((consumed_key, logged ∷ []) ∷ []) idle (((event, refl), tt), tt)

abbrev morning : List PumpEvent
morning =
    queued (codes "a")
    ∷ queued (codes "b")
    ∷ ready true true
    ∷ tick true
    ∷ queued (codes "c")
    ∷ shut
    ∷ ready false true
    ∷ []

pump_in_order_example :
    let p = pump_all morning new_pump in
    (batches : List Batch) × (lost : List Text) × (texts p.frames ≡ map frame_of batches)
    × (payloads batches ++ (lost ++ p.queue) ≡ accepted morning new_pump)
    × (p.running ≡ true → lost ≡ [])
pump_in_order_example = pump_in_order morning

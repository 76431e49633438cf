-- ===== src/Hub/Pump.antt =====
-- internal/websocket/client.go: the write pump of a client, which takes the payloads that wait in its
-- channel and writes them to the connection. Whether a write succeeds is the connection's, and an
-- argument; deadlines are left out.
use flash_sale.Common.{
  Bool, true, false, not, List, [], ◌∷◌, ◌++◌, Text, if◌then◌else◌, ◌&&◌, length, ltb,
}

pub data Frame : Type 0 where
  text : Text → Frame
  ping : Frame
  close : Frame

-- The client's channel, what the connection has been written, and whether the pump still runs.
pub record Pump : Type 0 where
  pub queue : List Text
  pub closed : Bool
  pub frames : List Frame
  pub running : Bool

abbrev pub new_pump : Pump
new_pump = record { queue = []; closed = false; frames = []; running = true }

abbrev pub newline : Text
newline = 10 ∷ []

-- A message, and the `n` that wait behind it, each after a newline.
abbrev pub batch : Text → List Text → Text
batch m [] = m
batch m (x ∷ xs) = batch (m ++ (newline ++ x)) xs

-- NextWriter, and the writer's Close, may fail; then the frame is not complete, and the pump ends.
abbrev pub write_batch : Bool → Bool → Text → List Text → Pump → Pump
write_batch false closes m rest p = record p { queue = rest; running = false }
write_batch true false m rest p = record p { queue = []; running = false }
write_batch true true m rest p = record p {
  queue = [];
  frames = p.frames ++ (text (batch m rest) ∷ []);
}

-- The channel is ready: a message, or its end.
abbrev pub take_message : Bool → Bool → List Text → Pump → Pump
take_message opens closes (m ∷ rest) p = write_batch opens closes m rest p
take_message opens closes [] p =
    if p.closed then record p { frames = p.frames ++ (close ∷ []); running = false } else p

pub data PumpEvent : Type 0 where
  -- the hub queues a payload, or closes the channel
  queued : Text → PumpEvent
  shut : PumpEvent
  -- the pump finds its channel ready
  ready : Bool → Bool → PumpEvent
  -- the ticker fires, and the ping is written or not
  tick : Bool → PumpEvent

-- DirectSend, and the hub's select: a payload is queued if the channel has room. A send on a closed
-- channel is a panic of the sender, and leaves the channel as it is.
abbrev pub takes : Pump → Bool
takes p = not p.closed && ltb (length p.queue) 256

abbrev pub enqueue_payload : Text → Pump → Pump
enqueue_payload payload p = if takes p then record p { queue = p.queue ++ (payload ∷ []) } else p

abbrev pub ping_written : Bool → Pump → Pump
ping_written true p = record p { frames = p.frames ++ (ping ∷ []) }
ping_written false p = record p { running = false }

-- StartWritePump: one turn of its loop, or what happens to the channel meanwhile.
unfoldable pub pump_event : PumpEvent → Pump → Pump
pump_event (queued payload) p = enqueue_payload payload p
pump_event shut p = record p { closed = true }
pump_event (ready opens closes) p = if p.running then take_message opens closes p.queue p else p
pump_event (tick written) p = if p.running then ping_written written p else p

unfoldable pub pump_all : List PumpEvent → Pump → Pump
unfolding pump_event
pump_all [] p = p
pump_all (e ∷ es) p = pump_all es (pump_event e p)

-- ===== src/Hub/InOrder.antt =====
-- The write pump delivers what was queued, in order.
use flash_sale.Common.{
  ◌≡◌, refl, sym, ap, subst, ◌∙◌, Bool, true, false, List, [], ◌∷◌, ◌++◌, Text, map, if◌then◌else◌,
  Bool-cases, inl, inr,
}
use mathlib.Core.List.{append-nil, append_assoc}
use flash_sale.Hub.Pump.{
  ping, close, Pump, new_pump, take_message, PumpEvent, queued, shut, ready, tick, takes,
  enqueue_payload, ping_written, pump_event, pump_all,
}
use flash_sale.Hub.Flow.{texts, Batch, frame_of, payloads, Flow, control, stopped, write_batch-Flow}

-- The payload that an event adds to the channel.
abbrev pub accepted_by : PumpEvent → Pump → List Text
accepted_by (queued payload) p = if takes p then payload ∷ [] else []
accepted_by shut p = []
accepted_by (ready opens closes) p = []
accepted_by (tick written) p = []

pub accepted : List PumpEvent → Pump → List Text
accepted [] p = []
accepted (e ∷ es) p = accepted_by e p ++ accepted es (pump_event e p)

if-Flow :
    (b : Bool) (sent : List Text) (u v : Pump)
    → (b ≡ true → Flow sent u)
    → (b ≡ false → Flow sent v)
    → Flow sent (if b then u else v)
if-Flow true sent u v f g = f refl
if-Flow false sent u v f g = g refl

take_message-Flow :
    (opens closes : Bool) (q sent : List Text) (p : Pump)
    → p.running ≡ true
    → p.queue ≡ q
    → Flow sent p
    → Flow sent (take_message opens closes q p)
take_message-Flow opens closes (m ∷ rest) sent p run waits h =
    write_batch-Flow opens closes m rest sent p run waits h
take_message-Flow opens closes [] sent p run waits h =
    if-Flow p.closed sent _ p
      (λ e.
        stopped sent (record p { frames = p.frames ++ (close ∷ []) })
          (control sent p (close ∷ []) refl h))
      (λ e. h)

enqueue-Flow :
    (payload : Text) (sent : List Text) (p : Pump)
    → Flow sent p
    → Flow (sent ++ (if takes p then payload ∷ [] else [])) (enqueue_payload payload p)
enqueue-Flow payload sent p h = elim (Bool-cases (takes p)) [
  | inl room ↦ rw room (record {
    batches = h.batches;
    lost = h.lost;
    framed = h.framed;
    in_order =
        ap (λ x. payloads h.batches ++ x) (sym (append_assoc h.lost p.queue (payload ∷ [])))
        ∙ sym (append_assoc (payloads h.batches) (h.lost ++ p.queue) (payload ∷ []))
        ∙ ap (λ x. x ++ (payload ∷ [])) h.in_order;
    kept = h.kept;
  })
  | inr full ↦ rw full (subst (λ x. Flow x p) (sym (append-nil sent)) h)
]

ping-Flow :
    (written : Bool) (sent : List Text) (p : Pump)
    → Flow sent p
    → Flow sent (ping_written written p)
ping-Flow true sent p h = control sent p (ping ∷ []) refl h
ping-Flow false sent p h = stopped sent p h

unchanged : (sent : List Text) (p : Pump) → Flow sent p → Flow (sent ++ []) p
unchanged sent p h = subst (λ x. Flow x p) (sym (append-nil sent)) h

event-Flow :
    (e : PumpEvent) (sent : List Text) (p : Pump)
    → Flow sent p
    → Flow (sent ++ accepted_by e p) (pump_event e p)
unfolding pump_event
event-Flow (queued payload) sent p h = enqueue-Flow payload sent p h
event-Flow shut sent p h =
    unchanged sent (record p { closed = true })
      (record {
        batches = h.batches;
        lost = h.lost;
        framed = h.framed;
        in_order = h.in_order;
        kept = h.kept;
      })
event-Flow (ready opens closes) sent p h = unchanged sent _ (
    if-Flow p.running sent _ p (λ run. take_message-Flow opens closes p.queue sent p run refl h)
      (λ e. h))
event-Flow (tick written) sent p h =
    unchanged sent _ (if-Flow p.running sent _ p (λ run. ping-Flow written sent p h) (λ e. h))

all-Flow :
    (es : List PumpEvent) (sent : List Text) (p : Pump)
    → Flow sent p
    → Flow (sent ++ accepted es p) (pump_all es p)
unfolding accepted pump_all
all-Flow [] sent p h = unchanged sent p h
all-Flow (e ∷ es) sent p h =
    subst (λ x. Flow x (pump_all es (pump_event e p)))
      (append_assoc sent (accepted_by e p) (accepted es (pump_event e p)))
      (all-Flow es (sent ++ accepted_by e p) (pump_event e p) (event-Flow e sent p h))

-- Whatever happens to a new client, its connection gets the payloads that its channel has taken,
-- in the order in which they were queued, none twice and none skipped: each text frame is a batch
-- of them, and what follows in order is what a failed write has lost and what still waits; while
-- the pump runs nothing is lost.
pub pump_in_order :
    (es : List PumpEvent)
    → let p = pump_all es new_pump in
      (batches : List Batch) × (lost : List Text) × (texts p.frames ≡ map frame_of batches)
      × (payloads batches ++ (lost ++ p.queue) ≡ accepted es new_pump)
      × (p.running ≡ true → lost ≡ [])
pump_in_order es =
    let h =
      all-Flow es [] new_pump
        (record { batches = []; lost = []; framed = refl; in_order = refl; kept = λ e. refl }) in
    (h.batches, h.lost, h.framed, h.in_order, h.kept)

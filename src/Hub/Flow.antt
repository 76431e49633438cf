-- ===== src/Hub/Flow.antt =====
-- What has gone through a client's channel, as batches of payloads in frames.
use flash_sale.Common.{◌≡◌, refl, sym, ap, ◌∙◌, Bool, true, false, List, [], ◌∷◌, ◌++◌, Text, map}
use mathlib.Core.List.{append-nil, append_assoc}
use flash_sale.Hub.Pump.{Frame, text, ping, close, Pump, batch, write_batch}

-- The text frames among the frames.
abbrev pub texts : List Frame → List Text
texts [] = []
texts (text t ∷ fs) = t ∷ texts fs
texts (ping ∷ fs) = texts fs
texts (close ∷ fs) = texts fs

texts-append : (fs gs : List Frame) → texts (fs ++ gs) ≡ texts fs ++ texts gs
texts-append [] gs = refl
texts-append (text t ∷ fs) gs = ap (λ x. t ∷ x) (texts-append fs gs)
texts-append (ping ∷ fs) gs = texts-append fs gs
texts-append (close ∷ fs) gs = texts-append fs gs

-- A batch: its first payload and those behind it.
abbrev pub Batch : Type 0
Batch = Text × List Text

abbrev pub frame_of : Batch → Text
frame_of b = batch b.0 b.1

abbrev pub payloads : List Batch → List Text
payloads [] = []
payloads (b ∷ bs) = b.0 ∷ (b.1 ++ payloads bs)

payloads-append :
    (bs : List Batch) (m : Text) (rest : List Text)
    → payloads (bs ++ ((m, rest) ∷ [])) ≡ payloads bs ++ (m ∷ rest)
payloads-append [] m rest = ap (λ x. m ∷ x) (append-nil rest)
payloads-append (b ∷ bs) m rest =
    ap (λ x. b.0 ∷ x)
      (ap (λ x. b.1 ++ x) (payloads-append bs m rest)
        ∙ sym (append_assoc b.1 (payloads bs) (m ∷ rest)))

map-snoc :
    (bs : List Batch) (b : Batch)
    → map frame_of (bs ++ (b ∷ [])) ≡ map frame_of bs ++ (frame_of b ∷ [])
map-snoc [] b = refl
map-snoc (c ∷ bs) b = ap (λ x. frame_of c ∷ x) (map-snoc bs b)

-- What has been queued so far is what the frames hold, then what a failed write has lost, then what
-- waits; and nothing is lost while the pump runs.
pub record Flow (sent : List Text) (p : Pump) : Type 0 where
  pub batches : List Batch
  pub lost : List Text
  pub framed : texts p.frames ≡ map frame_of batches
  pub in_order : payloads batches ++ (lost ++ p.queue) ≡ sent
  pub kept : p.running ≡ true → lost ≡ []

-- A frame that carries no payload changes nothing.
pub control :
    (sent : List Text) (p : Pump) (fs : List Frame)
    → texts fs ≡ []
    → Flow sent p
    → Flow sent (record p { frames = p.frames ++ fs })
control sent p fs none h = record {
  batches = h.batches;
  lost = h.lost;
  framed =
      texts-append p.frames fs
      ∙ ap (λ x. texts p.frames ++ x) none
      ∙ append-nil (texts p.frames)
      ∙ h.framed;
  in_order = h.in_order;
  kept = h.kept;
}

pub stopped : (sent : List Text) (p : Pump) → Flow sent p → Flow sent (record p { running = false })
stopped sent p h = record {
  batches = h.batches;
  lost = h.lost;
  framed = h.framed;
  in_order = h.in_order;
  kept = λ e. cc;
}

waiting :
    (m : Text) (rest sent : List Text) (p : Pump) (h : Flow sent p)
    → p.running ≡ true
    → p.queue ≡ m ∷ rest
    → payloads h.batches ++ (m ∷ rest) ≡ sent
waiting m rest sent p h run waits =
    ap (λ x. payloads h.batches ++ x) (sym (ap (λ l. l ++ p.queue) (h.kept run) ∙ waits))
    ∙ h.in_order

pub write_batch-Flow :
    (opens closes : Bool) (m : Text) (rest sent : List Text) (p : Pump)
    → p.running ≡ true
    → p.queue ≡ m ∷ rest
    → Flow sent p
    → Flow sent (write_batch opens closes m rest p)
write_batch-Flow false closes m rest sent p run waits h = record {
  batches = h.batches;
  lost = m ∷ [];
  framed = h.framed;
  in_order = waiting m rest sent p h run waits;
  kept = λ e. cc;
}
write_batch-Flow true false m rest sent p run waits h = record {
  batches = h.batches;
  lost = m ∷ rest;
  framed = h.framed;
  in_order =
      ap (λ x. payloads h.batches ++ (m ∷ x)) (append-nil rest) ∙ waiting m rest sent p h run waits;
  kept = λ e. cc;
}
write_batch-Flow true true m rest sent p run waits h = record {
  batches = h.batches ++ ((m, rest) ∷ []);
  lost = [];
  framed =
      texts-append p.frames (text (batch m rest) ∷ [])
      ∙ ap (λ x. x ++ (batch m rest ∷ [])) h.framed
      ∙ sym (map-snoc h.batches (m, rest));
  in_order =
      append-nil (payloads (h.batches ++ ((m, rest) ∷ [])))
      ∙ payloads-append h.batches m rest
      ∙ waiting m rest sent p h run waits;
  kept = λ e. refl;
}

-- ===== src/Streams/Unread.antt =====
-- What LogEvent writes never reaches the handler of a consumer.
use flash_sale.Common.{
  ℕ, ◌≡◌, ◌≢◌, refl, ap, ◌∙◌, none, some, List, [], ◌∷◌, ◌++◌, Text, codes, length, same, same_iff,
  arith, append_cancel_left, append_cancel_right, Bool-cases, inl, inr,
}
use flash_sale.Platform.{Platform}
use flash_sale.Redis.Keys.{sale_key}
use flash_sale.Streams.{
  StreamEvent, StreamMessage, event_values, events_key, consumed_key, Streams, log_event, decode,
  EventHandler, Consumer, consume_stream, consume_batch,
}

-- The messages of an event logger.
abbrev pub Logged : (ℕ → Text) → List StreamMessage → Type 0
Logged decimal [] = Unit {0}
Logged decimal (m ∷ ms) =
    ((e : StreamEvent) × (m.values ≡ event_values decimal e)) × Logged decimal ms

abbrev pub AllLogged : (ℕ → Text) → List (Text × List StreamMessage) → Type 0
AllLogged decimal [] = Unit {0}
AllLogged decimal ((stream, ms) ∷ rest) = Logged decimal ms × AllLogged decimal rest

decode-event_values :
    (decimal : ℕ → Text) (e : StreamEvent) → decode (event_values decimal e) ≡ none
unfolding decode event_values
decode-event_values decimal e = refl

module _ (E : Platform) where
  events_key-ne : (sale : ℕ) → consumed_key ≢ events_key E sale
  unfolding events_key sale_key
  events_key-ne sale e =
      let rest : codes "*" ++ codes ":events" ≡ E.uuid_string sale ++ codes ":events" =
        append_cancel_left (codes "sale:") (codes "*:events")
          (E.uuid_string sale ++ codes ":events") e in
      let id : codes "*" ≡ E.uuid_string sale =
        append_cancel_right (codes "*") (E.uuid_string sale) (codes ":events") rest in
      let short : ◌≡◌ {A = ℕ} 1 36 = ap length id ∙ E.length-uuid_string sale in
      absurd (omega arith)

module _ {S : Type 0} (handler : EventHandler S) (decimal : ℕ → Text) where
  skip_stream :
      (stream : Text) (ms : List StreamMessage) (c : Consumer S)
      → Logged decimal ms
      → consume_stream handler stream ms c ≡ c
  unfolding consume_stream
  skip_stream stream [] c h = refl
  skip_stream stream (m ∷ ms) c ((e, written), h) =
      let refused : decode m.values ≡ none = ap decode written ∙ decode-event_values decimal e in
      rw refused (skip_stream stream ms c h)

  skip_batch :
      (batch : List (Text × List StreamMessage)) (c : Consumer S)
      → AllLogged decimal batch
      → consume_batch handler (some batch) c ≡ c
  unfolding consume_batch
  skip_batch [] c h = refl
  skip_batch ((stream, ms) ∷ rest) c (here, later) =
      ap (consume_batch handler (some rest)) (skip_stream stream ms c here)
      ∙ skip_batch rest c later

  -- What LogEvent writes is not at the key that the consumer reads; and of a batch of messages
  -- that LogEvent has written, from whichever streams, the consumer hands none to its handler and
  -- acknowledges none.
  pub logged_events_unhandled :
      (E : Platform) (sale : ℕ) (e : StreamEvent) (id : Text) (streams : Streams)
      (batch : List (Text × List StreamMessage)) (c : Consumer S)
      → AllLogged decimal batch
      → (log_event E decimal sale e id streams consumed_key ≡ streams consumed_key)
        × (consume_batch handler (some batch) c ≡ c)
  unfolding log_event
  logged_events_unhandled E sale e id streams batch c logged =
      elim (Bool-cases (same consumed_key (events_key E sale))) [
        | inl hit ↦
            absurd (events_key-ne E sale ((same_iff consumed_key (events_key E sale)).0 hit))
        | inr miss ↦ (rw miss refl, skip_batch batch c logged)
      ]

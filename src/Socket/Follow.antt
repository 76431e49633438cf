-- ===== src/Socket/Follow.antt =====
-- What a client hears once it is connected.
use flash_sale.Common.{
  ℕ, ◌≡◌, refl, sym, ap, subst, ◌∙◌, true, false, some, [], ◌∷◌, ◌++◌, Text, length, ltb, ◌==◌,
  ==_iff, same_refl, Bool-cases, inl, inr, arith,
}
use flash_sale.Common.Int.{ℤ}
use flash_sale.Platform.{Platform}
use flash_sale.Platform.Keyspace.{str, num}
use flash_sale.Models.{Sale}
use flash_sale.Database.{has_id, find_sale}
use flash_sale.Redis.Keys.{available_key, reserved_key, pubsub_channel}
use flash_sale.Reservation.{is_empty}
use flash_sale.Inventory.Stats.{get_sale_calm}
use flash_sale.Hub.{Hub, members, subscribe}
use flash_sale.Server.{fan_out_sale}
use flash_sale.Server.Fanout.{Distinct, Listens, flip, not_in, sale_event_reaches_room}
use flash_sale.Socket.{
  Live, accept, push, user_topic, send_snapshot, after_parse, open_connection, handle_web_socket,
}

module _ (E : Platform) where
  named : (n : Text) → length n ≡ 36 → is_empty n ≡ false
  named [] e = absurd (omega (arith, e))
  named (x ∷ n) e = refl

  topic_named : (sale : ℕ) → is_empty (E.uuid_string sale) ≡ false
  topic_named sale = named (E.uuid_string sale) (E.length-uuid_string sale)

  -- The hub once the client has subscribed.
  abbrev pub subscribed : ℕ → Text → ℕ → Hub → Hub
  subscribed sale user c h = subscribe (E.uuid_string sale) (user_topic E user) c (accept c h)

  module _ (sale : ℕ) (user : Text) (c : ℕ) (h : Hub) where
    room_after :
        has_id c (members (h.rooms (E.uuid_string sale))) ≡ false
        → members ((subscribed sale user c h).rooms (E.uuid_string sale))
          ≡ c ∷ members (h.rooms (E.uuid_string sale))
    unfolding subscribe
    room_after out = rw (topic_named sale, same_refl (E.uuid_string sale), out) refl

    pub others_after :
        (d : ℕ) → (d == c) ≡ false → (subscribed sale user c h).clients d ≡ h.clients d
    unfolding subscribe
    others_after d apart = rw apart refl

  -- The hub once the client has its first message.
  abbrev greeted : Text → ℕ → Text → ℕ → Hub → Hub
  greeted first sale user c h = push c first (subscribed sale user c h)

  module _ (first : Text) (sale : ℕ) (user : Text) (c : ℕ) (h : Hub) where
    greeted_self :
        let x = (greeted first sale user c h).clients c in
        (x.queue ≡ first ∷ []) × (x.closed ≡ false)
    unfolding subscribe
    greeted_self = rw ((==_iff c c).1 refl) (refl, refl)

    greeted_other :
        (d : ℕ) → (d == c) ≡ false → (greeted first sale user c h).clients d ≡ h.clients d
    greeted_other d apart = rw apart (others_after sale user c h d apart)

  module _ (snapshot : ℤ → Text) where
    pub opened :
        (sale_text user : Text) (sale c : ℕ) (s : Live E)
        → E.parse_uuid sale_text ≡ some sale
        → handle_web_socket E snapshot sale_text user true c s
          ≡ open_connection E snapshot sale user c s
    unfolding handle_web_socket
    opened sale_text user sale c s parsed = ap (λ o. after_parse E snapshot o user true c s) parsed

    -- The hub after a handshake of a sale whose counters are there.
    opened_hub :
        (sale_text user : Text) (sale c : ℕ) (row : Sale) (a r : ℤ) (s : Live E)
        → E.parse_uuid sale_text ≡ some sale
        → s.world.faults ≡ []
        → find_sale sale s.world.db.sales ≡ some row
        → E.lookup s.world.redis (available_key E sale) ≡ some (str (num a))
        → E.lookup s.world.redis (reserved_key E sale) ≡ some (str (num r))
        → (handle_web_socket E snapshot sale_text user true c s).1.hub
          ≡ greeted (snapshot a) sale user c s.hub
    opened_hub sale_text user sale c row a r s parsed calm found ha hr =
        ap (λ p. p.1.hub) (opened sale_text user sale c s parsed)
        ∙ ap (λ v. send_snapshot E snapshot c v (subscribed sale user c s.hub))
            (get_sale_calm E sale row a r s.world calm found ha hr)

  module _ (sale : ℕ) (user : Text) (c : ℕ) (h : Hub) where
    room-Listens :
        (first : Text)
        → ((d : ℕ) → has_id d (members (h.rooms (E.uuid_string sale))) ≡ true → Listens h d)
        → (d : ℕ) → has_id d (c ∷ members (h.rooms (E.uuid_string sale))) ≡ true
        → Listens (greeted first sale user c h) d
    room-Listens first all d inside =
        let h1 = greeted first sale user c h in
        elim (Bool-cases (c == d)) [
          | inl hit ↦
              let (queue, open_channel) = greeted_self first sale user c h in
              subst (Listens h1) ((==_iff c d).0 hit)
                (open_channel, ap (λ q. ltb (length q) 256) queue)
          | inr miss ↦
              let (open_channel, space) = all d (rw miss at inside) in
              let kept = greeted_other first sale user c h d (flip c d miss) in
              (
                ap (λ x. x.closed) kept ∙ open_channel,
                ap (λ x. ltb (length x.queue) 256) kept ∙ space,
              )
        ]

  module _ (snapshot : ℤ → Text) where
    -- After a handshake for a sale whose row is there and whose counters hold integers, without
    -- network faults, the sale's next event comes to the new client right after the first message,
    -- which shows the available counter, and to the clients that were in the room, if these and
    -- the new one are distinct and those that were there have open channels with room for it.
    pub connection_follows_sale :
        (sale_text user payload : Text) (sale c : ℕ) (row : Sale) (a r : ℤ) (s : Live E)
        → let room = members (s.hub.rooms (E.uuid_string sale)) in
          E.parse_uuid sale_text ≡ some sale
          → s.world.faults ≡ []
          → find_sale sale s.world.db.sales ≡ some row
          → E.lookup s.world.redis (available_key E sale) ≡ some (str (num a))
          → E.lookup s.world.redis (reserved_key E sale) ≡ some (str (num r))
          → has_id c room ≡ false
          → Distinct room
          → ((d : ℕ) → has_id d room ≡ true → Listens s.hub d)
          → let s1 = (handle_web_socket E snapshot sale_text user true c s).1 in
            (h' : Hub) × (fan_out_sale (pubsub_channel E sale) payload s1.hub ≡ some h')
            × ((h'.clients c).queue ≡ snapshot a ∷ payload ∷ [])
            × ((d : ℕ)
                → has_id d room ≡ true
                → (h'.clients d).queue ≡ (s.hub.clients d).queue ++ (payload ∷ []))
    connection_follows_sale sale_text user payload sale c row a r s parsed calm found ha hr out d
          all =
        let first = snapshot a in
        let h1 = greeted first sale user c s.hub in
        let same_hub =
          opened_hub snapshot sale_text user sale c row a r s parsed calm found ha hr in
        let entered = room_after sale user c s.hub out in
        let (h', sent, done) =
          sale_event_reaches_room E sale payload h1 (subst Distinct (sym entered) (out, d))
            λ i inside.
              room-Listens sale user c s.hub first all i
                (ap (λ cs. has_id i cs) (sym entered) ∙ inside) in
        let among : (i : ℕ)
            → has_id i (c ∷ members (s.hub.rooms (E.uuid_string sale))) ≡ true
            → (h'.clients i).queue ≡ (h1.clients i).queue ++ (payload ∷ []) =
          λ i inside. done.reached i (ap (λ cs. has_id i cs) entered ∙ inside) in
        (
          h',
          ap (fan_out_sale (pubsub_channel E sale) payload) same_hub ∙ sent,
          among c (rw ((==_iff c c).1 refl))
              ∙ ap (λ q. q ++ (payload ∷ [])) (greeted_self first sale user c s.hub).0,
          λ i inside.
              among i (ground arith)
              ∙ ap (λ x. x.queue ++ (payload ∷ []))
                  (greeted_other first sale user c s.hub i (not_in c i _ out inside)),
        )

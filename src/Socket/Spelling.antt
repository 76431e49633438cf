-- ===== src/Socket/Spelling.antt =====
-- What a client does not hear, which has named its user in another spelling than the canonical one.
use flash_sale.Common.{
  ℕ, ◌≡◌, ◌≢◌, refl, sym, ap, subst, ◌∙◌, true, false, some, [], ◌∷◌, ◌++◌, Text, length, ltb, ◌==◌,
  Bool-cases, inl, inr,
}
use flash_sale.Common.Int.{ℤ}
use flash_sale.Platform.{Platform}
use flash_sale.Models.{Sale}
use flash_sale.Database.{has_id}
use flash_sale.Effects.{Result, ok, err}
use flash_sale.Redis.Keys.{user_channel}
use flash_sale.Redis.Counters.{put_ne}
use flash_sale.Reservation.{is_empty}
use flash_sale.Inventory.{SaleStats, get_sale}
use flash_sale.Hub.{Hub, members, insert, enter, subscribe}
use flash_sale.Server.{fan_out_user}
use flash_sale.Server.Fanout.{Distinct, Listens, not_in, user_event_reaches_room}
use flash_sale.Socket.{Live, if_parsed, user_topic, send_snapshot, handle_web_socket}
use flash_sale.Socket.Follow.{subscribed, others_after, opened}

module _ (E : Platform) where
  topic_user : (user : Text) (id : ℕ) → E.parse_uuid user ≡ some id → user_topic E user ≡ user
  topic_user [] id parsed = refl
  topic_user (x ∷ user) id parsed = ap (if_parsed (x ∷ user)) parsed

  module _ (sale : ℕ) (user : Text) (c : ℕ) (h : Hub) where
    -- The room of a user whose identifier is printed otherwise.
    other_room :
        (id : ℕ)
        → E.parse_uuid user ≡ some id
        → user ≢ E.uuid_string id
        → (subscribed E sale user c h).user_rooms (E.uuid_string id)
          ≡ h.user_rooms (E.uuid_string id)
    unfolding subscribe
    other_room id parsed other =
        ap (λ t. enter t c h.user_rooms (E.uuid_string id)) (topic_user user id parsed)
        ∙ elim (Bool-cases (is_empty user)) [
          | inl nameless ↦ rw nameless refl
          | inr is_named ↦ rw is_named (
              put_ne user (E.uuid_string id) (insert c (members (h.user_rooms user))) h.user_rooms
                (λ e. other (sym e)))
        ]

  module _ (snapshot : ℤ → Text) where
    send_snapshot-user_rooms :
        (c : ℕ) (r : Result (Sale × SaleStats)) (h : Hub)
        → (send_snapshot E snapshot c r h).user_rooms ≡ h.user_rooms
    send_snapshot-user_rooms c (err e) h = refl
    send_snapshot-user_rooms c (ok (sale, stats)) h = refl

    send_snapshot_other :
        (c d : ℕ) (r : Result (Sale × SaleStats)) (h : Hub)
        → (d == c) ≡ false
        → (send_snapshot E snapshot c r h).clients d ≡ h.clients d
    send_snapshot_other c d (err e) h apart = refl
    send_snapshot_other c d (ok (sale, stats)) h apart = rw apart refl

    -- A client that has named its user in another spelling than the canonical one does not get
    -- that user's events: after the handshake, an event on the user's channel comes to the clients
    -- that were in the user's room before, once each, and not to the new one, if it was not in
    -- there and those are distinct and have open channels with room for it.
    pub other_spelling_misses :
        (sale_text user payload : Text) (sale id c : ℕ) (s : Live E)
        → let room = members (s.hub.user_rooms (E.uuid_string id)) in
          E.parse_uuid sale_text ≡ some sale
          → E.parse_uuid user ≡ some id
          → user ≢ E.uuid_string id
          → has_id c room ≡ false
          → Distinct room
          → ((d : ℕ) → has_id d room ≡ true → Listens s.hub d)
          → let s1 = (handle_web_socket E snapshot sale_text user true c s).1 in
            (h' : Hub) × (fan_out_user (user_channel E id) payload s1.hub ≡ some h')
            × (h'.clients c ≡ s1.hub.clients c)
            × ((d : ℕ)
                → has_id d room ≡ true
                → (h'.clients d).queue ≡ (s.hub.clients d).queue ++ (payload ∷ []))
    other_spelling_misses sale_text user payload sale id c s parsed named_user other out d all =
        let s1 = (handle_web_socket E snapshot sale_text user true c s).1 in
        let reply = (get_sale E sale s.world).0 in
        let h0 = subscribed E sale user c s.hub in
        let same_hub : s1.hub ≡ send_snapshot E snapshot c reply h0 =
          ap (λ p. p.1.hub) (opened E snapshot sale_text user sale c s parsed) in
        let same_room : members (s1.hub.user_rooms (E.uuid_string id))
            ≡ members (s.hub.user_rooms (E.uuid_string id)) =
          ap (λ h. members (h.user_rooms (E.uuid_string id))) same_hub
          ∙ ap (λ m. members (m (E.uuid_string id))) (send_snapshot-user_rooms c reply h0)
          ∙ ap members (other_room sale user c s.hub id named_user other) in
        let kept : (i : ℕ)
            → has_id i (members (s.hub.user_rooms (E.uuid_string id))) ≡ true
            → s1.hub.clients i ≡ s.hub.clients i =
          λ i inside.
            ap (λ (h : Hub). h.clients i) same_hub
            ∙ send_snapshot_other c i reply h0 (not_in c i _ out inside)
            ∙ others_after E sale user c s.hub i (not_in c i _ out inside) in
        let (h', sent, done) =
          user_event_reaches_room E id payload s1.hub (subst Distinct (sym same_room) d) λ i inside.
            let before = ap (λ cs. has_id i cs) (sym same_room) ∙ inside in
            subst (λ x. (x.closed ≡ false) × (ltb (length x.queue) 256 ≡ true))
              (sym (kept i before)) (all i before) in
        (
          h',
          sent,
          done.others c (ap (λ cs. has_id c cs) same_room ∙ out),
          λ i inside.
              done.reached i (ap (λ cs. has_id i cs) same_room ∙ inside)
              ∙ ap (λ x. x.queue ++ (payload ∷ [])) (kept i inside),
        )

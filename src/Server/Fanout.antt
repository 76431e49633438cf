-- ===== src/Server/Fanout.antt =====
-- An event that a service publishes reaches the clients of its room.
use flash_sale.Common.{
  ℕ, ◌≡◌, refl, ap, subst, ◌∙◌, true, false, some, List, [], ◌∷◌, ◌++◌, Text, codes, length, ltb,
  ◌==◌, ==_iff, arith, Bool-cases, inl, inr,
}
use flash_sale.Platform.{Platform}
use flash_sale.Database.{has_id}
use flash_sale.Redis.Keys.{sale_key, pubsub_channel, user_channel}
use flash_sale.Hub.{
  Hub, members, set_client, send, send_each, send_rest, broadcast, publish_to_user,
}
use flash_sale.Server.{split_channel, middle, pass_to, fan_out_sale, fan_out_user}
use flash_sale.Server.Split.{middle-named}

module _ (E : Platform) where
  sale_room :
      (sale : ℕ) → middle (split_channel (pubsub_channel E sale)) ≡ some (E.uuid_string sale)
  unfolding pubsub_channel sale_key
  sale_room sale =
      middle-named (codes "sale") (E.uuid_string sale) (codes "pubsub") refl
        (E.uuid_string_no_colon sale)

  user_room : (user : ℕ) → middle (split_channel (user_channel E user)) ≡ some (E.uuid_string user)
  unfolding user_channel
  user_room user =
      middle-named (codes "user") (E.uuid_string user) (codes "events") refl
        (E.uuid_string_no_colon user)

  pub fan_out_sale_lem :
      (sale : ℕ) (payload : Text) (h : Hub)
      → fan_out_sale (pubsub_channel E sale) payload h ≡ broadcast (E.uuid_string sale) payload h
  unfolding fan_out_sale
  fan_out_sale_lem sale payload h = ap (λ o. pass_to broadcast o payload h) (sale_room sale)

  pub fan_out_user_lem :
      (user : ℕ) (payload : Text) (h : Hub)
      → fan_out_user (user_channel E user) payload h
        ≡ publish_to_user (E.uuid_string user) payload h
  unfolding fan_out_user
  fan_out_user_lem user payload h = ap (λ o. pass_to publish_to_user o payload h) (user_room user)

-- No client is in the list twice.
abbrev pub Distinct : List ℕ → Type 0
Distinct [] = Unit {0}
Distinct (c ∷ cs) = (has_id c cs ≡ false) × Distinct cs

-- The client's channel is open and has room for a payload.
abbrev pub Listens : Hub → ℕ → Type 0
Listens h c = ((h.clients c).closed ≡ false) × (ltb (length (h.clients c).queue) 256 ≡ true)

-- A payload has come to the clients of a list, once each, and to nobody else.
pub record Delivered (cs : List ℕ) (payload : Text) (h h' : Hub) : Type 0 where
  pub reached :
      (c : ℕ) → has_id c cs ≡ true → (h'.clients c).queue ≡ (h.clients c).queue ++ (payload ∷ [])
  pub others : (c : ℕ) → has_id c cs ≡ false → h'.clients c ≡ h.clients c

queued : ℕ → Text → Hub → Hub
queued c payload h = record h {
  clients =
      set_client c (record (h.clients c) { queue = (h.clients c).queue ++ (payload ∷ []) })
        h.clients;
}

queued_self :
    (c : ℕ) (payload : Text) (h : Hub)
    → ((queued c payload h).clients c).queue ≡ (h.clients c).queue ++ (payload ∷ [])
unfolding queued
queued_self c payload h = rw ((==_iff c c).1 refl)

queued_ne :
    (c d : ℕ) (payload : Text) (h : Hub)
    → (d == c) ≡ false
    → (queued c payload h).clients d ≡ h.clients d
unfolding queued
queued_ne c d payload h apart = rw apart

send_listening :
    (c : ℕ) (payload : Text) (h : Hub) → Listens h c → send c payload h ≡ some (queued c payload h)
unfolding queued
send_listening c payload h (open_channel, space) = rw (open_channel, space)

pub not_in : (c d : ℕ) (cs : List ℕ) → has_id c cs ≡ false → has_id d cs ≡ true → (d == c) ≡ false
not_in c d cs out inside = elim (Bool-cases (d == c)) [
  | inl hit ↦ cc (ap (λ i. has_id i cs) ((==_iff d c).0 hit), out, inside)
  | inr miss ↦ miss
]

pub flip : (c d : ℕ) → (c == d) ≡ false → (d == c) ≡ false
flip c d h = ground arith

queue_ne :
    (c d : ℕ) (payload : Text) (h : Hub)
    → (d == c) ≡ false
    → ((queued c payload h).clients d).queue ≡ (h.clients d).queue
queue_ne c d payload h apart = ap (λ x. x.queue) (queued_ne c d payload h apart)

still-Listens :
    (c d : ℕ) (payload : Text) (h : Hub)
    → (d == c) ≡ false
    → Listens h d
    → Listens (queued c payload h) d
still-Listens c d payload h apart (open_channel, space) = (
  ap (λ x. x.closed) (queued_ne c d payload h apart) ∙ open_channel,
  ap (λ x. ltb (length x.queue) 256) (queued_ne c d payload h apart) ∙ space,
)

module _ (c : ℕ) (cs : List ℕ) (payload : Text) (h h' : Hub) (out : has_id c cs ≡ false)
    (done : Delivered cs payload (queued c payload h) h') where
  reached_all :
      (d : ℕ)
      → has_id d (c ∷ cs) ≡ true
      → (h'.clients d).queue ≡ (h.clients d).queue ++ (payload ∷ [])
  reached_all d inside = elim (Bool-cases (c == d)) [
    | inl hit ↦
        let same_id = (==_iff c d).0 hit in
        subst (λ i. (h'.clients i).queue ≡ (h.clients i).queue ++ (payload ∷ [])) same_id
          (ap (λ x. x.queue) (done.others c out) ∙ queued_self c payload h)
    | inr miss ↦
        let in_rest : has_id d cs ≡ true = rw miss at inside in
        done.reached d in_rest
        ∙ ap (λ q. q ++ (payload ∷ [])) (queue_ne c d payload h (flip c d miss))
  ]

  left_others : (d : ℕ) → has_id d (c ∷ cs) ≡ false → h'.clients d ≡ h.clients d
  left_others d outside = elim (Bool-cases (c == d)) [
    | inl hit ↦ cc (rw hit at outside)
    | inr miss ↦
        let not_rest : has_id d cs ≡ false = rw miss at outside in
        done.others d not_rest ∙ queued_ne c d payload h (flip c d miss)
  ]

delivered :
    (cs : List ℕ) (payload : Text) (h : Hub)
    → Distinct cs
    → ((c : ℕ) → has_id c cs ≡ true → Listens h c)
    → (h' : Hub) × (send_each cs payload h ≡ some h') × Delivered cs payload h h'
unfolding send_each
delivered [] payload h d all = (h, refl, record { reached = λ c i. cc; others = λ c i. refl })
delivered (c ∷ cs) payload h (out, d) all =
    let (h', rest, done) =
      delivered cs payload (queued c payload h) d
        λ i inside. still-Listens c i payload h (not_in c i cs out inside) (all i (ground arith)) in
    (
      h',
      ap (send_rest (send_each cs payload))
            (send_listening c payload h (all c (rw ((==_iff c c).1 refl))))
          ∙ rest,
      record {
        reached = reached_all c cs payload h h' out done;
        others = left_others c cs payload h h' out done;
      },
    )

module _ (E : Platform) where
  -- An event on the channel of a sale is delivered by its subscriber to the clients of the sale's
  -- room, once to each and to nobody else, if they are distinct and each of them has an open
  -- channel with room for it.
  pub sale_event_reaches_room :
      (sale : ℕ) (payload : Text) (h : Hub)
      → let room = members (h.rooms (E.uuid_string sale)) in
        Distinct room
        → ((c : ℕ) → has_id c room ≡ true → Listens h c)
        → (h' : Hub) × (fan_out_sale (pubsub_channel E sale) payload h ≡ some h')
          × Delivered room payload h h'
  unfolding broadcast
  sale_event_reaches_room sale payload h d all =
      let (h', sent, done) = delivered (members (h.rooms (E.uuid_string sale))) payload h d all in
      (h', fan_out_sale_lem E sale payload h ∙ sent, done)

  -- An event on the channel of a user is delivered by its subscriber to the clients of that user, under
  -- the same conditions.
  pub user_event_reaches_room :
      (user : ℕ) (payload : Text) (h : Hub)
      → let room = members (h.user_rooms (E.uuid_string user)) in
        Distinct room
        → ((c : ℕ) → has_id c room ≡ true → Listens h c)
        → (h' : Hub) × (fan_out_user (user_channel E user) payload h ≡ some h')
          × Delivered room payload h h'
  unfolding publish_to_user
  user_event_reaches_room user payload h d all =
      let (h', sent, done) =
        delivered (members (h.user_rooms (E.uuid_string user))) payload h d all in
      (h', fan_out_user_lem E user payload h ∙ sent, done)

-- ===== src/Hub/Safety.antt =====
-- The hub does not panic as long as nobody is unregistered twice.
use flash_sale.Common.{
  ℕ, ◌≡◌, ◌≢◌, refl, sym, ap, ◌∙◌, true, false, none, some, Text, ==_iff, arith, Bool-cases, inl,
  inr, subst,
}
use flash_sale.Reservation.{is_empty}
use flash_sale.Hub.{Client, Hub, Rooms, exit, set_client, subscribe, unregister}
use flash_sale.Hub.Rooms.{IsIn, enter-IsIn, enter_self, exit-IsIn}

-- Whoever is in a room is open and has subscribed to it, and the room has a name.
pub record Clean (h : Hub) : Type 0 where
  pub in_sale :
      (k : Text) (c : ℕ)
      → IsIn c k h.rooms
      → ((h.clients c).closed ≡ false) × ((h.clients c).sale_id ≡ k) × (is_empty k ≡ false)
  pub in_user :
      (k : Text) (c : ℕ)
      → IsIn c k h.user_rooms
      → ((h.clients c).closed ≡ false) × ((h.clients c).user_id ≡ k) × (is_empty k ≡ false)

-- Who is left in a room by one who was only in the room of its key.
exited :
    (key k : Text) (c d : ℕ) (rooms : Rooms)
    → ((k : Text) → IsIn c k rooms → (key ≡ k) × (is_empty k ≡ false))
    → IsIn d k (exit key c rooms)
    → IsIn d k rooms × (d ≢ c)
exited key k c d rooms only h = elim (Bool-cases (is_empty key)) [
  | inl nameless ↦
      let inside : IsIn d k rooms = rw nameless at h in
      (
        inside,
        λ e.
            let (same_key, named) = only k (subst (λ x. IsIn x k rooms) e inside) in
            cc (nameless, ap is_empty same_key, named),
      )
  | inr named ↦
      let (inside, apart) = exit-IsIn key k c d rooms named h in
      (inside, λ e. apart (sym (only k (subst (λ x. IsIn x k rooms) e inside)).0) e)
]

set_other :
    (c d : ℕ) (x : Client) (clients : ℕ → Client) → d ≢ c → set_client c x clients d ≡ clients d
set_other c d x clients apart = ground (arith, ==_iff d c)

pub set_self : (c : ℕ) (x : Client) (clients : ℕ → Client) → set_client c x clients c ≡ x
set_self c x clients = rw ((==_iff c c).1 refl)

-- The hub once an open client is unregistered.
abbrev pub unregistered : ℕ → Hub → Hub
unregistered c h = record h {
  rooms = exit (h.clients c).sale_id c h.rooms;
  user_rooms = exit (h.clients c).user_id c h.user_rooms;
  clients = set_client c (record (h.clients c) { closed = true }) h.clients;
}

module _ (h : Hub) (c : ℕ) (clean : Clean h) (open_client : (h.clients c).closed ≡ false) where
  left_sale : (k : Text) (d : ℕ) → IsIn d k (unregistered c h).rooms → IsIn d k h.rooms × (d ≢ c)
  left_sale k d =
      exited (h.clients c).sale_id k c d h.rooms
        (λ k i. let (o, s, n) = clean.in_sale k c i in (s, n))

  left_user :
      (k : Text) (d : ℕ) → IsIn d k (unregistered c h).user_rooms → IsIn d k h.user_rooms × (d ≢ c)
  left_user k d =
      exited (h.clients c).user_id k c d h.user_rooms
        (λ k i. let (o, s, n) = clean.in_user k c i in (s, n))

  still-Clean : Clean (unregistered c h)
  still-Clean = record {
    in_sale = λ k d i.
        let (inside, apart) = left_sale k d i in
        let same_client = set_other c d (record (h.clients c) { closed = true }) h.clients apart in
        let (o, s, n) = clean.in_sale k d inside in
        (ap (λ x. x.closed) same_client ∙ o, ap (λ x. x.sale_id) same_client ∙ s, n);
    in_user = λ k d i.
        let (inside, apart) = left_user k d i in
        let same_client = set_other c d (record (h.clients c) { closed = true }) h.clients apart in
        let (o, s, n) = clean.in_user k d inside in
        (ap (λ x. x.closed) same_client ∙ o, ap (λ x. x.user_id) same_client ∙ s, n);
  }

  -- If whoever is in a room is open and has subscribed to it, then the unregistration of an open
  -- client does not panic, takes the client out of every room, and leaves the condition as it was.
  pub unregister-Clean :
      (h' : Hub) × (unregister c h ≡ some h')
      × Clean h'
      × ((k : Text) → ¬ IsIn c k h'.rooms)
      × ((k : Text) → ¬ IsIn c k h'.user_rooms)
  unfolding unregister
  unregister-Clean = (
    unregistered c h,
    rw open_client,
    still-Clean,
    λ k i. (left_sale k c i).1 refl,
    λ k i. (left_user k c i).1 refl,
  )

-- A second unregistration closes a closed channel.
pub unregister-unregister : (c : ℕ) (h h' : Hub) → unregister c h ≡ some h' → unregister c h' ≡ none
unfolding unregister
unregister-unregister c h h' e = elim (Bool-cases (h.clients c).closed) [
  | inl shut ↦ cc (rw shut at e)
  | inr open_client ↦
      let written : some (unregistered c h) ≡ some h' = rw open_client at e in
      let same_hub : unregistered c h ≡ h' = cc in
      let shut : (h'.clients c).closed ≡ true =
        ap (λ x. (x.clients c).closed) (sym same_hub)
        ∙ ap (λ x. x.closed) (set_self c (record (h.clients c) { closed = true }) h.clients) in
      rw shut
]

resubscribed :
    (sale user : Text) (c d : ℕ) (h : Hub)
    → d ≢ c
    → set_client c (record (h.clients c) { sale_id = sale; user_id = user }) h.clients d
      ≡ h.clients d
resubscribed sale user c d h apart =
    set_other c d (record (h.clients c) { sale_id = sale; user_id = user }) h.clients apart

-- If whoever is in a room is open and has subscribed to it, then the subscription of an open
-- client that is in no room, to a sale with a name, puts it into the room of the sale and leaves
-- the condition as it was.
pub subscribe-Clean :
    (sale user : Text) (c : ℕ) (h : Hub)
    → Clean h
    → (h.clients c).closed ≡ false
    → ((k : Text) → ¬ IsIn c k h.rooms)
    → ((k : Text) → ¬ IsIn c k h.user_rooms)
    → is_empty sale ≡ false
    → Clean (subscribe sale user c h) × IsIn c sale (subscribe sale user c h).rooms
unfolding subscribe
subscribe-Clean sale user c h clean open_client no_sale no_user named =
    let x : Client = record (h.clients c) { sale_id = sale; user_id = user } in
    let self = set_self c x h.clients in
    (
      record {
        in_sale = λ k d i. elim (enter-IsIn sale k c d h.rooms i) [
          | inl (same_id, same_key, has_name) ↦
              let kept = ap (λ e. set_client c x h.clients e) same_id ∙ self in
              (
                ap (λ y. y.closed) kept ∙ open_client,
                ap (λ y. y.sale_id) kept ∙ sym same_key,
                ap is_empty same_key ∙ has_name,
              )
          | inr inside ↦
              let apart : d ≢ c = λ e. no_sale k (subst (λ y. IsIn y k h.rooms) e inside) in
              let kept = resubscribed sale user c d h apart in
              let (o, s, n) = clean.in_sale k d inside in
              (ap (λ y. y.closed) kept ∙ o, ap (λ y. y.sale_id) kept ∙ s, n)
        ];
        in_user = λ k d i. elim (enter-IsIn user k c d h.user_rooms i) [
          | inl (same_id, same_key, has_name) ↦
              let kept = ap (λ e. set_client c x h.clients e) same_id ∙ self in
              (
                ap (λ y. y.closed) kept ∙ open_client,
                ap (λ y. y.user_id) kept ∙ sym same_key,
                ap is_empty same_key ∙ has_name,
              )
          | inr inside ↦
              let apart : d ≢ c = λ e. no_user k (subst (λ y. IsIn y k h.user_rooms) e inside) in
              let kept = resubscribed sale user c d h apart in
              let (o, s, n) = clean.in_user k d inside in
              (ap (λ y. y.closed) kept ∙ o, ap (λ y. y.user_id) kept ∙ s, n)
        ];
      },
      enter_self sale c h.rooms named,
    )

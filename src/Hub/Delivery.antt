-- ===== src/Hub/Delivery.antt =====
-- A broadcast reaches the clients of its room without a panic.
use flash_sale.Common.{
  ℕ, ◌≡◌, refl, sym, ap, ◌∙◌, true, false, none, some, List, [], ◌∷◌, ◌++◌, Text, length, ltb, ◌==◌,
  ==_iff, if◌then◌else◌, arith, Bool-cases, inl, inr,
}
use flash_sale.Database.{has_id}
use flash_sale.Hub.{Hub, members, set_client, enqueue, send, send_each, send_rest, broadcast}
use flash_sale.Hub.Safety.{Clean}

-- What a delivery leaves as it was: the rooms, and all of a client but its queue.
pub record SameHub (h h' : Hub) : Type 0 where
  same_rooms : h'.rooms ≡ h.rooms
  same_user_rooms : h'.user_rooms ≡ h.user_rooms
  same_closed : (c : ℕ) → (h'.clients c).closed ≡ (h.clients c).closed
  same_sale : (c : ℕ) → (h'.clients c).sale_id ≡ (h.clients c).sale_id
  same_user : (c : ℕ) → (h'.clients c).user_id ≡ (h.clients c).user_id

requeued :
    (c d : ℕ) (q : List Text) (h : Hub)
    → let x = set_client c (record (h.clients c) { queue = q }) h.clients d in
      (x.closed ≡ (h.clients d).closed)
      × (x.sale_id ≡ (h.clients d).sale_id)
      × (x.user_id ≡ (h.clients d).user_id)
requeued c d q h = elim (Bool-cases (d == c)) [
  | inl hit ↦
      let same_id = (==_iff d c).0 hit in
      rw hit (
        ap (λ i. (h.clients i).closed) (sym same_id),
        ap (λ i. (h.clients i).sale_id) (sym same_id),
        ap (λ i. (h.clients i).user_id) (sym same_id),
      )
  | inr miss ↦ rw miss (refl, refl, refl)
]

enqueue-SameHub : (c : ℕ) (payload : Text) (h : Hub) → SameHub h (enqueue c payload h)
enqueue-SameHub c payload h = elim (Bool-cases (ltb (length (h.clients c).queue) 256)) [
  | inl space ↦
      let q = (h.clients c).queue ++ (payload ∷ []) in
      rw space (record {
        same_rooms = refl;
        same_user_rooms = refl;
        same_closed = λ d. (requeued c d q h).0;
        same_sale = λ d. (requeued c d q h).1;
        same_user = λ d. (requeued c d q h).2;
      })
  | inr full ↦ rw full (record {
    same_rooms = refl;
    same_user_rooms = refl;
    same_closed = λ d. refl;
    same_sale = λ d. refl;
    same_user = λ d. refl;
  })
]

-- All of the list are open.
AllOpen : Hub → List ℕ → Type 0
AllOpen h [] = Unit {0}
AllOpen h (c ∷ cs) = ((h.clients c).closed ≡ false) × AllOpen h cs

all_open :
    (h : Hub) (cs : List ℕ)
    → ((c : ℕ) → has_id c cs ≡ true → (h.clients c).closed ≡ false)
    → AllOpen h cs
unfolding AllOpen
all_open h [] each = tt
all_open h (c ∷ cs) each =
    (each c (rw ((==_iff c c).1 refl)), all_open h cs (λ d i. each d (ground arith)))

move_open : (h h' : Hub) (cs : List ℕ) → SameHub h h' → AllOpen h cs → AllOpen h' cs
unfolding AllOpen
move_open h h' [] s o = tt
move_open h h' (c ∷ cs) s (o, os) = (s.same_closed c ∙ o, move_open h h' cs s os)

pub send_open :
    (c : ℕ) (payload : Text) (h : Hub)
    → (h.clients c).closed ≡ false
    → send c payload h ≡ some (enqueue c payload h)
send_open c payload h o = ap (λ b. if b then none else some (enqueue c payload h)) o

send_each-SameHub :
    (cs : List ℕ) (payload : Text) (h : Hub)
    → AllOpen h cs
    → (h' : Hub) × (send_each cs payload h ≡ some h') × SameHub h h'
unfolding send_each AllOpen
send_each-SameHub [] payload h o = (
  h,
  refl,
  record {
    same_rooms = refl;
    same_user_rooms = refl;
    same_closed = λ d. refl;
    same_sale = λ d. refl;
    same_user = λ d. refl;
  },
)
send_each-SameHub (c ∷ cs) payload h (o, os) =
    let h1 = enqueue c payload h in
    let first = enqueue-SameHub c payload h in
    let (h2, e, later) = send_each-SameHub cs payload h1 (move_open h h1 cs first os) in
    (
      h2,
      ap (send_rest (send_each cs payload)) (send_open c payload h o) ∙ e,
      record {
        same_rooms = later.same_rooms ∙ first.same_rooms;
        same_user_rooms = later.same_user_rooms ∙ first.same_user_rooms;
        same_closed = λ d. later.same_closed d ∙ first.same_closed d;
        same_sale = λ d. later.same_sale d ∙ first.same_sale d;
        same_user = λ d. later.same_user d ∙ first.same_user d;
      },
    )

move-Clean : (h h' : Hub) → SameHub h h' → Clean h → Clean h'
move-Clean h h' s clean = record {
  in_sale = λ k c i.
      let (o, t, n) =
        clean.in_sale k c (ap (λ r. has_id c (members (r k))) (sym s.same_rooms) ∙ i) in
      (s.same_closed c ∙ o, s.same_sale c ∙ t, n);
  in_user = λ k c i.
      let (o, t, n) =
        clean.in_user k c (ap (λ r. has_id c (members (r k))) (sym s.same_user_rooms) ∙ i) in
      (s.same_closed c ∙ o, s.same_user c ∙ t, n);
}

-- If whoever is in a room is open and has subscribed to it, then a broadcast does not panic, and
-- leaves the rooms, and this condition, as they were.
pub broadcast-Clean :
    (sale payload : Text) (h : Hub)
    → Clean h
    → (h' : Hub) × (broadcast sale payload h ≡ some h') × Clean h' × (h'.rooms ≡ h.rooms)
unfolding broadcast
broadcast-Clean sale payload h clean =
    let (h', e, s) =
      send_each-SameHub (members (h.rooms sale)) payload h
        (all_open h (members (h.rooms sale)) (λ c i. (clean.in_sale sale c i).0)) in
    (h', e, move-Clean h h' s clean, s.same_rooms)

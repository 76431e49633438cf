-- ===== src/Hub/Slow.antt =====
-- A client that does not keep up.
use flash_sale.Common.{
  ℕ, ◌≤◌, ◌≡◌, refl, ap, ◌∙◌, false, none, some, [], ◌∷◌, Text, length, ltb, arith,
}
use flash_sale.Hub.{Hub, members, unregister, enqueue, send_each, send_rest, broadcast}
use flash_sale.Hub.Safety.{Clean, unregister-Clean, unregister-unregister}
use flash_sale.Hub.Delivery.{send_open}

-- The hub once it has started to unregister the client.
abbrev marked : ℕ → Hub → Hub
marked c g = record g { unregistering = c ∷ g.unregistering }

module _ (h : Hub) (c : ℕ) (sale : Text) (full : 256 ≤ length (h.clients c).queue) where
  refused : (payload : Text) → enqueue c payload h ≡ marked c h
  refused payload =
      let no_space : ltb (length (h.clients c).queue) 256 ≡ false = ground arith in rw no_space

  sent_to_full :
      (payload : Text)
      → h.rooms sale ≡ some (c ∷ [])
      → (h.clients c).closed ≡ false
      → broadcast sale payload h ≡ some (marked c h)
  unfolding broadcast send_each
  sent_to_full payload alone open_client =
      ap (λ o. send_each (members o) payload h) alone
      ∙ ap (send_rest (send_each [] payload)) (send_open c payload h open_client)
      ∙ ap some (refused payload)

module _ (h : Hub) (c : ℕ) (sale first second : Text) where
  -- If the one client of a room is open and its channel is full, then two broadcasts start two
  -- unregistrations of it, and the hub panics on the second of them.
  pub slow_client_panics :
      Clean h
      → h.rooms sale ≡ some (c ∷ [])
      → (h.clients c).closed ≡ false
      → 256 ≤ length (h.clients c).queue
      → (h1 h2 h3 : Hub) × (broadcast sale first h ≡ some h1)
        × (broadcast sale second h1 ≡ some h2)
        × (h2.unregistering ≡ c ∷ c ∷ h.unregistering)
        × (unregister c h2 ≡ some h3)
        × (unregister c h3 ≡ none)
  slow_client_panics clean alone open_client full =
      let h1 = marked c h in
      let h2 = marked c h1 in
      let clean2 : Clean h2 = record { in_sale = clean.in_sale; in_user = clean.in_user } in
      let (h3, e, clean3, no_sale, no_user) = unregister-Clean h2 c clean2 open_client in
      (
        h1,
        h2,
        h3,
        sent_to_full h c sale full first alone open_client,
        sent_to_full h1 c sale full second alone open_client,
        refl,
        e,
        unregister-unregister c h2 h3 e,
      )

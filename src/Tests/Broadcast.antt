-- ===== src/Tests/Broadcast.antt =====
-- The theorems on the hub, each at a run with one sale and one client.
use flash_sale.Common.{
  ℕ, suc, zero, ◌≡◌, refl, false, none, some, List, [], ◌∷◌, Text, codes, arith,
}
use flash_sale.Hub.{Client, Hub, new_hub, subscribe, unregister, broadcast}
use flash_sale.Hub.Rooms.{IsIn}
use flash_sale.Hub.Safety.{Clean, subscribe-Clean, unregister-Clean}
use flash_sale.Hub.Delivery.{broadcast-Clean}
use flash_sale.Hub.Slow.{slow_client_panics}

abbrev backlog : ℕ → List Text
backlog zero = []
backlog (suc n) = codes "m" ∷ backlog n

abbrev connected : ℕ → ℕ → Client
connected n c = record { sale_id = []; user_id = []; queue = backlog n; closed = false }

abbrev bare : ℕ → Hub
bare n = new_hub (connected n)

bare-Clean : (n : ℕ) → Clean (bare n)
bare-Clean n = record { in_sale = λ k c i. cc i; in_user = λ k c i. cc i }

abbrev with_client : ℕ → Hub
unfolding subscribe
with_client n = subscribe (codes "s") (codes "u") 1 (bare n)

with_client-Clean : (n : ℕ) → Clean (with_client n)
unfolding with_client subscribe
with_client-Clean n =
    (subscribe-Clean (codes "s") (codes "u") 1 (bare n) (bare-Clean n) refl (λ k i. cc i)
      (λ k i. cc i) refl).0

subscribe-Clean_example :
    Clean (subscribe (codes "s") (codes "u") 1 (bare 0))
    × IsIn 1 (codes "s") (subscribe (codes "s") (codes "u") 1 (bare 0)).rooms
subscribe-Clean_example =
    subscribe-Clean (codes "s") (codes "u") 1 (bare 0) (bare-Clean 0) refl (λ k i. cc i)
      (λ k i. cc i) refl

unregister-Clean_example :
    (h' : Hub) × (unregister 1 (with_client 0) ≡ some h')
    × Clean h'
    × ((k : Text) → ¬ IsIn 1 k h'.rooms)
    × ((k : Text) → ¬ IsIn 1 k h'.user_rooms)
unfolding with_client subscribe
unregister-Clean_example = unregister-Clean (with_client 0) 1 (with_client-Clean 0) refl

broadcast-Clean_example :
    (h' : Hub) × (broadcast (codes "s") (codes "p") (with_client 0) ≡ some h')
    × Clean h'
    × (h'.rooms ≡ (with_client 0).rooms)
broadcast-Clean_example =
    broadcast-Clean (codes "s") (codes "p") (with_client 0) (with_client-Clean 0)

slow_client_panics_example :
    (h1 h2 h3 : Hub) × (broadcast (codes "s") (codes "p") (with_client 256) ≡ some h1)
    × (broadcast (codes "s") (codes "q") h1 ≡ some h2)
    × (h2.unregistering ≡ 1 ∷ 1 ∷ [])
    × (unregister 1 h2 ≡ some h3)
    × (unregister 1 h3 ≡ none)
unfolding with_client subscribe
slow_client_panics_example =
    slow_client_panics (with_client 256) 1 (codes "s") (codes "p") (codes "q")
      (with_client-Clean 256) refl refl (omega arith)

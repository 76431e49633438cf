-- ===== src/Tests/Sockets.antt =====
-- The theorems on WebSocket connections, each at a run: client 3 watches sale 7, and client 5 connects.
use flash_sale.Common.{ℕ, ◌+◌, ◌≡◌, refl, true, false, some, [], ◌∷◌, ◌++◌, Text, codes, arith}
use flash_sale.Common.Int.{ℤ, pos, negsuc}
use flash_sale.Reference.{memory}
use flash_sale.Redis.Keys.{
  available_key, reserved_key, sale_key, meta_key, pubsub_channel, user_channel,
}
use flash_sale.Inventory.{create_sale, init_redis, new_sale}
use flash_sale.Effects.{db_exec, redis_call}
use flash_sale.Database.{has_id, insert_sale}
use flash_sale.Hub.{Hub, Client, new_hub, subscribe, members}
use flash_sale.Server.{fan_out_sale, fan_out_user}
use flash_sale.Server.Fanout.{Listens}
use flash_sale.Socket.{Live, handle_web_socket}
use flash_sale.Socket.Follow.{connection_follows_sale}
use flash_sale.Socket.Spelling.{other_spelling_misses}
use flash_sale.Tests.Scene.{input, opened}

abbrev idle_client : ℕ → Client
idle_client c = record { sale_id = []; user_id = []; queue = []; closed = false }

abbrev watching : Hub
unfolding subscribe
watching = subscribe (memory.uuid_string 7) (memory.uuid_string 2) 3 (new_hub idle_client)

abbrev live : Live memory
live = record { world = opened; hub = watching }

abbrev decimal : ℤ → Text
decimal (pos n) = (n + 48) ∷ []
decimal (negsuc n) = 45 ∷ (n + 49) ∷ []

sale-Listens :
    (d : ℕ) → has_id d (members (watching.rooms (memory.uuid_string 7))) ≡ true → Listens watching d
unfolding subscribe
sale-Listens d inside = ground arith

user-Listens :
    (d : ℕ)
    → has_id d (members (watching.user_rooms (memory.uuid_string 2))) ≡ true
    → Listens watching d
unfolding subscribe
user-Listens d inside = ground arith

-- 102 alone is read as the identifier 2.
abbrev short_form : Text
short_form = 102 ∷ []

connection_follows_sale_example :
    let s1 = (handle_web_socket memory decimal (memory.uuid_string 7) [] true 5 live).1 in
    (h' : Hub) × (fan_out_sale (pubsub_channel memory 7) (codes "{}") s1.hub ≡ some h')
    × ((h'.clients 5).queue ≡ codes "2" ∷ codes "{}" ∷ [])
    × ((d : ℕ)
        → has_id d (members (watching.rooms (memory.uuid_string 7))) ≡ true
        → (h'.clients d).queue ≡ (watching.clients d).queue ++ (codes "{}" ∷ []))
unfolding subscribe create_sale insert_sale available_key reserved_key sale_key db_exec init_redis
    redis_call meta_key
connection_follows_sale_example =
    connection_follows_sale memory decimal (memory.uuid_string 7) [] (codes "{}") 7 5
      (new_sale input 7 5) (pos 2) (pos 0) live refl refl refl refl refl refl (refl, tt)
      sale-Listens

other_spelling_misses_example :
    let s1 = (handle_web_socket memory decimal (memory.uuid_string 7) short_form true 5 live).1 in
    (h' : Hub) × (fan_out_user (user_channel memory 2) (codes "{}") s1.hub ≡ some h')
    × (h'.clients 5 ≡ s1.hub.clients 5)
    × ((d : ℕ)
        → has_id d (members (watching.user_rooms (memory.uuid_string 2))) ≡ true
        → (h'.clients d).queue ≡ (watching.clients d).queue ++ (codes "{}" ∷ []))
unfolding subscribe
other_spelling_misses_example =
    other_spelling_misses memory decimal (memory.uuid_string 7) short_form (codes "{}") 7 2 5 live
      refl refl (λ e. cc e) refl (refl, tt) user-Listens

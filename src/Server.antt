-- ===== src/Server.antt =====
-- cmd/server/main.go: the two subscribers that pass published events on to the WebSocket hub, and what
-- they take a channel's name apart with. The subscription is Redis's: a subscriber is given the
-- channels that its pattern matches.
pub mod Split
pub mod Fanout
pub mod Boot
use flash_sale.Common.{
  ℕ, suc, Option, none, some, List, [], ◌∷◌, ◌++◌, Text, codes, length, ◌==◌, if◌then◌else◌, Bool,
  true, false, same, ◌&&◌, leb,
}
use flash_sale.Hub.{Hub, broadcast, publish_to_user}

abbrev pub colon : ℕ
colon = 58

-- splitChannel, after the parts that are found: `part` is the channel from `start` up to `i`, and the
-- argument is the channel from `i` on.
unfoldable pub split_loop : List Text → Text → Text → List Text
split_loop found part [] = found ++ (part ∷ [])
split_loop found part (c ∷ rest) =
    let found' = found ++ (part ∷ []) in
    let end = found' ++ (rest ∷ []) in
    let next = split_loop found' [] rest in
    let go_on = split_loop found (part ++ (c ∷ [])) rest in
    if c == colon then (if length found' == 2 then end else next) else go_on

unfoldable pub split_channel : Text → List Text
unfolding split_loop
split_channel channel = split_loop [] [] channel

-- `if len(parts) == 3 { hub.Publish(parts[1], payload) }`
abbrev pub middle : List Text → Option Text
middle (a ∷ b ∷ c ∷ []) = some b
middle _ = none

abbrev pub pass_to : (Text → Text → Hub → Option Hub) → Option Text → Text → Hub → Option Hub
pass_to publish none payload h = some h
pass_to publish (some room) payload h = publish room payload h

-- The subscriber of sale:*:pubsub, on a message. Hub.Publish sends the broadcast, which Run handles.
unfoldable pub fan_out_sale : Text → Text → Hub → Option Hub
unfolding split_channel
fan_out_sale channel payload h = pass_to broadcast (middle (split_channel channel)) payload h

-- The subscriber of user:*:events, on a message.
unfoldable pub fan_out_user : Text → Text → Hub → Option Hub
unfolding split_channel
fan_out_user channel payload h = pass_to publish_to_user (middle (split_channel channel)) payload h

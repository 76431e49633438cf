-- ===== src/Api/Replay.antt =====
-- What the idempotency middleware answers to a second request.
use flash_sale.Common.{true, List, [], ◌∷◌, Text}
use flash_sale.Api.Idempotency.{Write, header, bytes, PostRequest}

-- Only bodies.
abbrev pub Bodies : List Write → Type 0
Bodies [] = Unit {0}
Bodies (header code ∷ ws) = ⊥
Bodies (bytes b ∷ ws) = Bodies ws

-- The header, if it is written at all, is written once and before the body.
abbrev pub HeaderFirst : List Write → Type 0
HeaderFirst [] = Unit {0}
HeaderFirst (header code ∷ ws) = Bodies ws
HeaderFirst (bytes b ∷ ws) = Bodies ws

abbrev pub post : Text → PostRequest
post key = record { is_post = true; key = key }

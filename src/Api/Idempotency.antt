-- ===== src/Api/Idempotency.antt =====
-- internal/api/metrics_middleware.go: the response writer that captures what a handler writes, and the
-- middleware that caches responses under an idempotency key. What a handler writes is a list; the
-- entry that is cached stands for its JSON form, and whatever else the key may hold does not decode.
-- The expiry of a cached entry after 24 hours is left out. The router installs the middleware nowhere.
use flash_sale.Common.{
  ℕ, Bool, true, false, ◌&&◌, not, Option, none, some, List, [], ◌∷◌, ◌++◌, Text, codes,
  if◌then◌else◌,
}
use flash_sale.Platform.Keyspace.{put}
use flash_sale.Reservation.{is_empty}
use flash_sale.Effects.{Outcome, first_fault, later_faults, landed}

-- WriteHeader and Write
pub data Write : Type 0 where
  header : ℕ → Write
  bytes : Text → Write

-- idempotencyEntry
pub record Entry : Type 0 where
  pub status : ℕ
  pub body : Text

-- responseWriter with `capture` set: each WriteHeader overwrites the status.
abbrev pub capture_write : Entry → Write → Entry
capture_write e (header code) = record e { status = code }
capture_write e (bytes b) = record e { body = e.body ++ b }

abbrev pub capture_all : Entry → List Write → Entry
capture_all e [] = e
capture_all e (x ∷ xs) = capture_all (capture_write e x) xs

unfoldable pub captured : List Write → Entry
captured ws = capture_all (record { status = 200; body = [] }) ws

-- What net/http sends: the first WriteHeader counts, and a Write before it means 200.
abbrev pub sent_status : List Write → ℕ
sent_status [] = 200
sent_status (header code ∷ ws) = code
sent_status (bytes b ∷ ws) = 200

abbrev pub sent_body : List Write → Text
sent_body [] = []
sent_body (header code ∷ ws) = sent_body ws
sent_body (bytes b ∷ ws) = b ++ sent_body ws

pub record Sent : Type 0 where
  pub status : ℕ
  pub body : Text
  pub replayed : Bool

abbrev pub sent : Bool → List Write → Sent
sent replayed ws = record { status = sent_status ws; body = sent_body ws; replayed = replayed }

pub data Stored : Type 0 where
  entry : Entry → Stored
  other : Text → Stored

pub record PostRequest : Type 0 where
  pub is_post : Bool
  pub key : Text

-- The cache, what the network does to the coming calls of it, and what the handlers work on.
pub record Shared (S : Type 0) : Type 0 where
  pub cache : Text → Option Stored
  pub faults : List Outcome
  pub inner : S

abbrev pub Next : Type 0 → Type 0
Next S = S → List Write × S

abbrev pub cache_key : Text → Text
cache_key key = codes "idempotency:" ++ key

-- `err == nil && cached != ""`, and the entry decodes.
abbrev pub hit : Outcome → Option Stored → Option Entry
hit Outcome.done (some (entry e)) = some e
hit Outcome.done (some (other t)) = none
hit Outcome.done none = none
hit Outcome.refused o = none
hit Outcome.lost o = none

module _ {S : Type 0} where
  abbrev pub run : Next S → Shared S → Sent × Shared S
  run next s = let (ws, inner) = next s.inner in (sent false ws, record s { inner = inner })

  abbrev pub run_and_store : Next S → Text → Shared S → Sent × Shared S
  run_and_store next key s =
      let (ws, inner) = next s.inner in
      (
        sent false ws,
        record {
          cache =
              landed (first_fault s.faults) s.cache
                (put (cache_key key) (entry (captured ws)) s.cache);
          faults = later_faults s.faults;
          inner = inner;
        },
      )

  abbrev pub settle_hit : Next S → Text → Option Entry → Shared S → Sent × Shared S
  settle_hit next key (some e) s = (sent true (header e.status ∷ bytes e.body ∷ []), s)
  settle_hit next key none s = run_and_store next key s

  -- IdempotencyMiddleware in front of a handler
  unfoldable pub idempotent : Next S → PostRequest → Shared S → Sent × Shared S
  idempotent next req s =
      if req.is_post && not (is_empty req.key)
      then settle_hit next req.key (hit (first_fault s.faults) (s.cache (cache_key req.key)))
          (record s { faults = later_faults s.faults })
      else run next s

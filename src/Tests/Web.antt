-- ===== src/Tests/Web.antt =====
-- The theorems on the HTTP API, each at a run.
use flash_sale.Common.{ℕ, ◌+◌, true, none, some, codes, [], ◌∷◌}
use flash_sale.Effects.{World}
use flash_sale.Reference.{memory}
use flash_sale.Api.Router.{Server, Request, Route, serve, reserve}
use flash_sale.Api.Idempotency.{header, bytes, Shared, Next}
use flash_sale.Tests.Scene.{service, start, opened}
use flash_sale.Server.Boot.{Config, serving}
use flash_sale.Server.Boot
use flash_sale.Tests.Drift.{lost}
use flash_sale.Tests.Limits.{limiter}

abbrev server : Server
server = record { service = service; limiter = limiter; reconciliation_complete = true }

abbrev request : Route → Request
request route = record {
  route = route;
  user_header = codes "alice";
  remote_addr = codes "10.0.0.1";
  idempotency_key = codes "k1";
  fresh_id = 20;
  now = 30;
  now_ms = 30000;
}

abbrev buy : Request
buy = request (reserve (memory.uuid_string 7) (some (record { user_id = 1; item_id = 4 })))

abbrev bought : World memory
bought = (serve memory server buy opened).1

abbrev settings : Config
settings = record { reservation_ttl = 300; limiter = server.limiter }

abbrev restarted : World memory
restarted = (Boot.start memory settings 100 lost).1

abbrev resold : World memory
resold = (serve memory (serving settings) buy restarted).1

abbrev garbled : Request
garbled = request (reserve (codes "seven") none)

abbrev greet : Next ℕ
greet n = (header 201 ∷ bytes (codes "hello") ∷ [], n + 1)

abbrev fail_always : Next ℕ
fail_always n = (header 500 ∷ [], n + 1)

abbrev cold : Shared ℕ
cold = record { cache = λ k. none; faults = []; inner = 0 }

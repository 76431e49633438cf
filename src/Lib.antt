-- ===== src/Lib.antt =====
-- A flash-sale backend: users reserve units of a sale's stock for a limited time, confirm a reservation
-- into an order or release it, and queue on a waitlist once the sale is out of stock. The stock counters
-- live in Redis, where Lua scripts move them atomically; the reservations and orders are rows in
-- PostgreSQL. The theorems are about what ties the two together.
--
-- The parts, and the files that model them (paths are from the repository's root):
--   Models.antt        internal/models: reservations, orders, sales; the audit entries and the events.
--   Database.antt      migrations/001 and 002: the tables with their constraints, and the SQL statements
--                      of the services as functions of the tables; Database/Rows.antt has the lemmas.
--   Platform.antt      Redis and the UUID library, which the program calls and does not contain, as
--                      a record of commands with their documented laws; Platform/Keyspace.antt states
--                      what a key holds. Reference.antt is an instance, on which the examples run.
--   Effects.antt       The state that the services share (the store, the tables, the published events)
--                      and the calls that reach it. Each call draws an outcome from a list of faults:
--                      it goes through, it is refused, or it is done and its reply is lost.
--   Redis.antt         internal/redis: the key names, the Lua scripts of internal/redis/scripts, and the
--                      client's methods; its children relate the scripts to the counters of all sales.
--   Reservation.antt   internal/reservation/service.go: Reserve and Release, and Confirm in
--                      Reservation/Confirmation.antt, with every call that they make, in order, and every
--                      early return. Reservation/Race.antt interleaves two Releases of one row.
--   Inventory.antt     internal/inventory/service.go: CreateSale, GetSale and UpdateSaleStatus.
--   Expiry.antt        internal/queue/expiry_handler.go: the handler of an expired reservation, the
--                      promotion from the waitlist, and the expiry warnings.
--   Waitlist.antt      internal/waitlist/service.go: Join, GetPosition and Leave.
--   Reconcile.antt     internal/worker/reconciler.go (Worker) and internal/recovery/reconcile_startup.go
--                      (Startup), which set the counters from the rows.
--   Hub.antt           internal/websocket/hub.go: the rooms, and what Run does with a registration, an
--                      unregistration and a broadcast; a panic is a result. Hub/Pump.antt is the write
--                      pump of a client in internal/websocket/client.go, and DirectSend.
--   RateLimit.antt     internal/ratelimit/limiter.go and token_bucket.lua; RateLimit/Bucket.antt is the
--                      pure bucket that the script implements.
--   Api.antt           internal/api: the answers, and RateLimitMiddleware; its children are the handlers
--                      of internal/api/handlers (Reservations, Sales, Waitlists, Orders), the router and
--                      the health check (Router), and IdempotencyMiddleware (Idempotency).
--   Server.antt        cmd/server/main.go: the subscribers that pass published events on to the hub, and
--                      splitChannel; Server/Boot.antt is what main does before it serves.
--   Socket.antt        internal/websocket/handler.go: the handler that opens a connection, with the first
--                      message, which shows the stock.
--   Streams.antt       internal/streams/logger.go: LogEvent, and the consumer on what a read returns.
--   System.antt        The calls of the services one after another, as a step relation.
--   Tests.antt         Runs on the reference platform.
--
-- A service's method is an action: from the shared state to a result and a new state. An error that the
-- source returns is a result; the cause that its message wraps is left out. Identifiers are numbers, as
-- are times in seconds; an identifier that the source draws with uuid.New, and the time of a call, are
-- arguments. Stock is a signed integer, and Redis counters are signed 64-bit integers: the laws of INCR
-- and DECR hold inside that range, and the total of a sale is a 32-bit column. There is no fuel: every
-- loop of the program that is modelled runs over a list, of rows, clients, messages or characters.
--
-- The invariant is InSync (Reservation/Sync.antt): of every sale the reserved rows and the pending or
-- paid orders fit into the total, the available counter is what they leave of it, and the reserved
-- counter is the number of reserved rows. "Without network faults" means that the list of faults is
-- empty; a statement or a script may still refuse. Calls are taken one after another; the interleavings
-- of two Releases in Reservation/Race.antt are the exception.
--
-- A request is the route that it has reached with its path parameters, and its header and body as the
-- libraries decode them: an identifier that does not parse and a body that does not decode are values.
-- The rate limiter keeps its buckets in the same Redis as the counters. A bucket's tokens are counted
-- in millionths and its rate in thousandths of a token per second, so that what a millisecond adds is
-- exact: configured values with at most three decimals fit, and the rounding of doubles is left out. A
-- key that is given 60 seconds to live expires then or later. Messages of a client's channel are texts;
-- frames of its connection are lists of them.
--
-- Not modelled: logging, metrics, tracing, and the recovery of the router from a panic; the reading of
-- the configuration, start-up but for the reconciliation, shutdown, and the loading of the scripts;
-- the upgrade of a WebSocket connection and its read pump, which only waits for the end of the
-- connection; waiting, as of the consumer for the next read: these are input and output, or glue
-- around libraries. Encodings (JSON payloads, tracing attributes) are left out. Of interleavings of
-- calls, those of two Releases only.
pub mod Common
pub mod Platform
pub mod Reference
pub mod Models
pub mod Database
pub mod Effects
pub mod Redis
pub mod Reservation
pub mod Inventory
pub mod Expiry
pub mod Waitlist
pub mod Reconcile
pub mod Hub
pub mod RateLimit
pub mod Api
pub mod Server
pub mod Socket
pub mod Streams
pub mod System
pub mod Tests

-- ===== src/Effects.antt =====
-- The state that the services share and the calls that reach it: the Redis store, the PostgreSQL
-- tables, the events published so far (newest first), and what the network will do to the coming
-- calls. Each call of a service consumes one outcome; a list that has run out stands for calls that
-- succeed.
pub mod Keeps
pub mod Calm
pub mod Steps
use flash_sale.Common.{ℕ, Bool, true, false, Option, none, some, List, [], ◌∷◌, Text, if◌then◌else◌}
use flash_sale.Platform.{Platform}
use flash_sale.Models.{Event}
use flash_sale.Database.{Tables}

-- `refused`: the call has no effect and fails. `lost`: it has its effect, and its reply is lost.
pub data Outcome : Type 0 where
  done refused lost : Outcome

pub record Message : Type 0 where
  pub channel : Text
  pub event : Event

pub record World (E : Platform) : Type 0 where
  pub redis : E.Store
  pub db : Tables
  pub sent : List Message
  pub faults : List Outcome

-- The errors of the services, by their messages; the cause that a message wraps is left out.
pub data Error : Type 0 where
  unavailable no_rows parse_failed : Error
  sold_out redis_reserve_failed create_reservation_failed set_ttl_failed : Error
  reservation_not_found not_reserved redis_confirm_failed invalid_state begin_failed : Error
  update_failed create_order_failed audit_failed commit_failed redis_release_failed : Error
  join_failed stock_available already_waiting not_waiting size_failed leave_failed : Error
  create_sale_failed init_redis_failed get_sale_failed available_failed reserved_failed : Error
  update_status_failed redis_status_failed : Error
  count_reservations_failed count_orders_failed set_available_failed set_reserved_failed : Error
  query_sales_failed : Error
  promote_failed nobody_waiting invalid_user invalid_key : Error
  rate_limiter_failed : Error

pub data Result (A : Type 0) : Type 0 where
  ok : A → Result A
  err : Error → Result A

module _ {A : Type 0} where
  abbrev pub renamed : Error → Result A → Result A
  renamed e (ok a) = ok a
  renamed e (err x) = err e

  abbrev pub caught : Result A → Result (Option A)
  caught (ok a) = ok (some a)
  caught (err x) = ok none

  abbrev pub answer : Outcome → Option A → Result A
  answer Outcome.done (some a) = ok a
  answer Outcome.done none = err unavailable
  answer Outcome.refused r = err unavailable
  answer Outcome.lost r = err unavailable

abbrev pub Action : Platform → Type 0 → Type 0
Action E A = World E → Result A × World E

module _ {E : Platform} {A : Type 0} where
  abbrev pub pure : A → Action E A
  pure a w = (ok a, w)

  abbrev pub fail : Error → Action E A
  fail e w = (err e, w)

  -- `if err != nil { return …fmt.Errorf("…: %w", err) }`
  abbrev pub wrap : Error → Action E A → Action E A
  wrap e m w = let (r, w') = m w in (renamed e r, w')

  -- A call whose error is inspected or ignored.
  abbrev pub attempt : Action E A → Action E (Option A)
  attempt m w = let (r, w') = m w in (caught r, w')

infixl 5 ◌>>=◌ ◌>>◌
abbrev pub ◌>>=◌ : {E : Platform} {A B : Type 0} → Action E A → (A → Action E B) → Action E B
◌>>=◌ m f w = let (r, w') = m w in elim r [ ok a ↦ f a w' | err e ↦ (err e, w') ]

abbrev pub ◌>>◌ : {E : Platform} {A B : Type 0} → Action E A → Action E B → Action E B
m >> k = m >>= λ _. k

abbrev pub first_fault : List Outcome → Outcome
first_fault [] = Outcome.done
first_fault (o ∷ os) = o

abbrev pub later_faults : List Outcome → List Outcome
later_faults [] = []
later_faults (o ∷ os) = os

-- What a write leaves behind: its effect, unless the call was refused.
abbrev pub landed {ℓ} : {S : Type ℓ} → Outcome → S → S → S
landed Outcome.refused old new = old
landed _ old new = new

abbrev pub exec_reply : Option Tables → Option (Unit {0})
exec_reply none = none
exec_reply (some t) = some tt

abbrev pub exec_state : Tables → Option Tables → Tables
exec_state t none = t
exec_state t (some u) = u

module _ {E : Platform} where
  -- A command or script sent to Redis, which runs it atomically.
  unfoldable pub redis_call : {A : Type 0} → (E.Store → Option A × E.Store) → Action E A
  redis_call f w =
      let o = first_fault w.faults in
      let (r, s) = f w.redis in
      (answer o r, record w { redis = landed o w.redis s; faults = later_faults w.faults })

  -- A statement that writes, outside of a transaction.
  unfoldable pub db_exec : (Tables → Option Tables) → Action E (Unit {0})
  db_exec f w =
      let o = first_fault w.faults in
      let r = f w.db in
      (
        answer o (exec_reply r),
        record w { db = landed o w.db (exec_state w.db r); faults = later_faults w.faults },
      )

  -- A query; `none` of the function is an empty row set, which a scan reports as an error.
  unfoldable pub db_query : {A : Type 0} → (Tables → Option A) → Action E A
  db_query f w =
      (answer (first_fault w.faults) (f w.db), record w { faults = later_faults w.faults })

  -- BEGIN: the tables as the transaction will see them.
  unfoldable pub begin : Action E Tables
  unfolding db_query
  begin = db_query some

  -- A statement inside a transaction works on the transaction's own tables.
  unfoldable pub tx_exec : (Tables → Option Tables) → Tables → Action E Tables
  tx_exec f tx w =
      (answer (first_fault w.faults) (f tx), record w { faults = later_faults w.faults })

  -- COMMIT. What is not committed is rolled back, which changes nothing here.
  unfoldable pub commit : Tables → Action E (Unit {0})
  unfolding db_exec
  commit tx = db_exec (λ _. some tx)

  -- Publisher.Publish and Publisher.PublishToUser, on a channel that is already named.
  unfoldable pub publish : Text → Event → Action E (Unit {0})
  publish channel event w =
      let o = first_fault w.faults in
      (
        answer o (some tt),
        record w {
          redis = landed o w.redis (E.publish channel event w.redis);
          sent = landed o w.sent (record { channel = channel; event = event } ∷ w.sent);
          faults = later_faults w.faults;
        },
      )

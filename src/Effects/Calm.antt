-- ===== src/Effects/Calm.antt =====
-- The calls when the network lets every call through.
use flash_sale.Common.{◌≡◌, refl, Option, none, some, [], ◌∷◌, Text}
use flash_sale.Platform.{Platform}
use flash_sale.Models.{Event}
use flash_sale.Database.{Tables}
use flash_sale.Effects.{
  World, Outcome, ok, err, Error, answer, redis_call, db_exec, db_query, begin, tx_exec, commit,
  attempt, caught, publish,
}

answered : {A : Type 0} (o : Option A) → caught (answer Outcome.done o) ≡ ok o
answered none = refl
answered (some a) = refl

module _ {E : Platform} (w : World E) (calm : w.faults ≡ []) where
  pub redis_call_calm :
      {A : Type 0} (f : E.Store → Option A × E.Store) {a : A}
      → (f w.redis).0 ≡ some a
      → redis_call f w ≡ (ok a, record w { redis = (f w.redis).1; faults = [] })
  unfolding redis_call
  redis_call_calm f e = rw (calm, e)

  pub redis_call_tried :
      {A : Type 0} (f : E.Store → Option A × E.Store)
      → (o : Option A) × (attempt (redis_call f) w
          ≡ (ok o, record w { redis = (f w.redis).1; faults = [] }))
  unfolding redis_call
  redis_call_tried f = ((f w.redis).0, rw (calm, answered (f w.redis).0))

  pub redis_call_asked :
      {A : Type 0} (f : E.Store → Option A × E.Store)
      → attempt (redis_call f) w
        ≡ (ok (f w.redis).0, record w { redis = (f w.redis).1; faults = [] })
  unfolding redis_call
  redis_call_asked f = rw (calm, answered (f w.redis).0)

  pub db_exec_done :
      (f : Tables → Option Tables) {t : Tables}
      → f w.db ≡ some t
      → db_exec f w ≡ (ok tt, record w { db = t; faults = [] })
  unfolding db_exec
  db_exec_done f e = rw (calm, e)

  pub db_exec_failed :
      (f : Tables → Option Tables)
      → f w.db ≡ none
      → db_exec f w ≡ (err Error.unavailable, record w { faults = [] })
  unfolding db_exec
  db_exec_failed f e = rw (calm, e)

  pub db_query_found :
      {A : Type 0} (f : Tables → Option A) {a : A}
      → f w.db ≡ some a
      → db_query f w ≡ (ok a, record w { faults = [] })
  unfolding db_query
  db_query_found f e = rw (calm, e)

  pub db_query_missing :
      {A : Type 0} (f : Tables → Option A)
      → f w.db ≡ none
      → db_query f w ≡ (err Error.unavailable, record w { faults = [] })
  unfolding db_query
  db_query_missing f e = rw (calm, e)

  pub begin_calm : begin w ≡ (ok w.db, record w { faults = [] })
  unfolding begin db_query
  begin_calm = rw calm

  pub tx_exec_done :
      (f : Tables → Option Tables) {t u : Tables}
      → f t ≡ some u
      → tx_exec f t w ≡ (ok u, record w { faults = [] })
  unfolding tx_exec
  tx_exec_done f e = rw (calm, e)

  pub tx_exec_failed :
      (f : Tables → Option Tables) {t : Tables}
      → f t ≡ none
      → tx_exec f t w ≡ (err Error.unavailable, record w { faults = [] })
  unfolding tx_exec
  tx_exec_failed f e = rw (calm, e)

  pub commit_calm : (t : Tables) → commit t w ≡ (ok tt, record w { db = t; faults = [] })
  unfolding commit db_exec
  commit_calm t = rw calm

  pub publish_calm :
      (channel : Text) (event : Event)
      → publish channel event w ≡ (
        ok tt,
        record w {
          redis = E.publish channel event w.redis;
          sent = record { channel = channel; event = event } ∷ w.sent;
          faults = [];
        },
      )
  unfolding publish
  publish_calm channel event = rw calm

-- ===== src/Reservation/Quiet.antt =====
-- The parts of the service that leave the stock alone: whatever the network does, publishing,
-- auditing, arming the expiry key and recording an idempotency key change neither counter and no
-- waitlist of any sale, and no table but the audit log.
use flash_sale.Common.{ℕ, ◌≡◌, refl, ◌∙◌, Option, List, [], Text}
use flash_sale.Common.Int.{ℤ, pos, eqb_ℤ}
use flash_sale.Platform.{Platform}
use flash_sale.Models.{Event, EventType, Reservation, AuditEntry}
use flash_sale.Database.{Tables, insert_audit}
use flash_sale.Effects.{
  World, Outcome, pure, attempt, redis_call, db_exec, publish, first_fault, landed, exec_state,
  ◌>>◌,
}
use flash_sale.Effects.Keeps.{
  Preorder, Keeps, pure-Keeps, wrap-Keeps, attempt-Keeps, bind-Keeps, then-Keeps, if-Keeps,
}
use flash_sale.Redis.Script.{get}
use flash_sale.Redis.Keys.{available_key, reserved_key, waitlist_key}
use flash_sale.Redis.Counters.{lookup-set_ne}
use flash_sale.Redis.Apart.{
  available_key-ne-ttl_key, reserved_key-ne-ttl_key, idempotency_key-ne-available_key,
  idempotency_key-ne-reserved_key, idempotency_key-ne-waitlist_key, waitlist_key-ne-ttl_key,
}
use flash_sale.Reservation.{
  Service, stock_count, set_ttl, set_idempotency, write_audit, publish_stock, publish_sold_out,
  remember, announce_reservation, announce_return, audited, is_empty,
}

abbrev pub unlogged : Tables → Tables
unlogged t = record t { audit_log = [] }

module _ (E : Platform) where
  pub record SameStock (s s' : E.Store) : Type 0 where
    pub same_available :
        (sale : ℕ) → E.lookup s' (available_key E sale) ≡ E.lookup s (available_key E sale)
    pub same_reserved :
        (sale : ℕ) → E.lookup s' (reserved_key E sale) ≡ E.lookup s (reserved_key E sale)
    pub same_waitlist :
        (sale : ℕ) → E.lookup s' (waitlist_key E sale) ≡ E.lookup s (waitlist_key E sale)

  pub record Quiet (w w' : World E) : Type 0 where
    pub stock : SameStock w.redis w'.redis
    pub tables : unlogged w'.db ≡ unlogged w.db
    pub calm : w.faults ≡ [] → w'.faults ≡ []

  pub SameStock-refl : (s : E.Store) → SameStock s s
  SameStock-refl s = record {
    same_available = λ sale. refl;
    same_reserved = λ sale. refl;
    same_waitlist = λ sale. refl;
  }

  abbrev pub quiet : Preorder E
  quiet = record {
    Rel = Quiet;
    reflexive = λ w. record { stock = SameStock-refl w.redis; tables = refl; calm = λ e. e };
    transitive = λ u v w p q. record {
      stock = record {
        same_available = λ sale. q.stock.same_available sale ∙ p.stock.same_available sale;
        same_reserved = λ sale. q.stock.same_reserved sale ∙ p.stock.same_reserved sale;
        same_waitlist = λ sale. q.stock.same_waitlist sale ∙ p.stock.same_waitlist sale;
      };
      tables = q.tables ∙ p.tables;
      calm = λ e. q.calm (p.calm e);
    };
  }

  landed-SameStock : (o : Outcome) (s s' : E.Store) → SameStock s s' → SameStock s (landed o s s')
  landed-SameStock Outcome.done s s' h = h
  landed-SameStock Outcome.refused s s' h = SameStock-refl s
  landed-SameStock Outcome.lost s s' h = h

  pub redis_call-Quiet :
      {A : Type 0} (f : E.Store → Option A × E.Store)
      → ((s : E.Store) → SameStock s (f s).1)
      → Keeps quiet (redis_call f)
  unfolding redis_call
  redis_call-Quiet f h = record {
    holds = λ w. record {
      stock = landed-SameStock (first_fault w.faults) w.redis (f w.redis).1 (h w.redis);
      tables = refl;
      calm = λ e. rw e;
    };
  }

  pub set_ttl-Quiet : (seconds id : ℕ) → Keeps quiet (set_ttl E seconds id)
  unfolding set_ttl
  set_ttl-Quiet seconds id = redis_call-Quiet _ λ s. record {
    same_available = λ sale. lookup-set_ne E _ _ _ _ s (available_key-ne-ttl_key E id sale);
    same_reserved = λ sale. lookup-set_ne E _ _ _ _ s (reserved_key-ne-ttl_key E id sale);
    same_waitlist = λ sale. lookup-set_ne E _ _ _ _ s (waitlist_key-ne-ttl_key E id sale);
  }

  pub set_idempotency-Quiet :
      (sale : ℕ) (key : Text) (id : ℕ) → Keeps quiet (set_idempotency E sale key id)
  unfolding set_idempotency
  set_idempotency-Quiet sale key id = redis_call-Quiet _ λ s. record {
    same_available = λ b. lookup-set_ne E _ _ _ _ s (idempotency_key-ne-available_key E sale b key);
    same_reserved = λ b. lookup-set_ne E _ _ _ _ s (idempotency_key-ne-reserved_key E sale b key);
    same_waitlist = λ b. lookup-set_ne E _ _ _ _ s (idempotency_key-ne-waitlist_key E sale b key);
  }

  pub get-Quiet : (k : Text) → Keeps quiet (redis_call (get E k))
  get-Quiet k = redis_call-Quiet (get E k) (λ s. SameStock-refl s)

  pub stock_count-Quiet : (sale : ℕ) → Keeps quiet (stock_count E sale)
  unfolding stock_count
  stock_count-Quiet sale =
      bind-Keeps quiet _ _ (attempt-Keeps quiet _ (get-Quiet (available_key E sale)))
        (λ v. pure-Keeps quiet _)

  landed-unlogged :
      (o : Outcome) (t : Tables) (e : AuditEntry)
      → unlogged (landed o t (exec_state t (insert_audit e t))) ≡ unlogged t
  unfolding insert_audit
  landed-unlogged Outcome.done t e = refl
  landed-unlogged Outcome.refused t e = refl
  landed-unlogged Outcome.lost t e = refl

  insert_audit-Quiet : (e : AuditEntry) → Keeps quiet (db_exec (insert_audit e))
  unfolding db_exec
  insert_audit-Quiet e = record {
    holds = λ w. record {
      stock = SameStock-refl w.redis;
      tables = landed-unlogged (first_fault w.faults) w.db e;
      calm = λ e. rw e;
    };
  }

  pub write_audit-Quiet :
      (event : EventType) (id : ℕ) (payload : List (Text × Text))
      → Keeps quiet (write_audit E event id payload)
  unfolding write_audit
  write_audit-Quiet event id payload =
      then-Keeps quiet _ _ (attempt-Keeps quiet _ (insert_audit-Quiet (audited E event id payload)))
        (pure-Keeps quiet tt)

  publish-SameStock :
      (channel : Text) (event : Event) (s : E.Store) → SameStock s (E.publish channel event s)
  publish-SameStock channel event s = record {
    same_available = λ sale. rw (E.lookup-publish channel event s);
    same_reserved = λ sale. rw (E.lookup-publish channel event s);
    same_waitlist = λ sale. rw (E.lookup-publish channel event s);
  }

  pub publish-Quiet : (channel : Text) (event : Event) → Keeps quiet (publish channel event)
  unfolding publish
  publish-Quiet channel event = record {
    holds = λ w. record {
      stock =
          landed-SameStock (first_fault w.faults) w.redis (E.publish channel event w.redis)
            (publish-SameStock channel event w.redis);
      tables = refl;
      calm = λ e. rw e;
    };
  }

  told-Quiet :
      (channel : Text) (event : Event) → Keeps quiet (attempt (publish channel event) >> pure tt)
  told-Quiet channel event =
      then-Keeps quiet _ _ (attempt-Keeps quiet _ (publish-Quiet channel event))
        (pure-Keeps quiet tt)

  pub publish_stock-Quiet :
      (svc : Service) (sale : ℕ) (n : ℤ) → Keeps quiet (publish_stock E svc sale n)
  unfolding publish_stock
  publish_stock-Quiet svc sale n =
      if-Keeps quiet svc.has_publisher _ _ (told-Quiet _ _) (pure-Keeps quiet tt)

  pub publish_sold_out-Quiet :
      (svc : Service) (sale : ℕ) (n : ℤ) → Keeps quiet (publish_sold_out E svc sale n)
  unfolding publish_sold_out
  publish_sold_out-Quiet svc sale n =
      if-Keeps quiet svc.has_publisher _ _
        (if-Keeps quiet (eqb_ℤ n (pos 0)) _ _ (told-Quiet _ _) (pure-Keeps quiet tt))
        (pure-Keeps quiet tt)

  remember-Quiet : (key : Text) (r : Reservation) → Keeps quiet (remember E key r)
  remember-Quiet key r = if-Keeps quiet (is_empty key) _ _ (pure-Keeps quiet tt) (
      then-Keeps quiet _ _ (attempt-Keeps quiet _ (set_idempotency-Quiet r.sale_id key r.id))
        (pure-Keeps quiet tt))

  -- All that follows the insertion of a reservation, on every branch and under every fault.
  pub announce_reservation-Quiet :
      (svc : Service) (key : Text) (r : Reservation)
      → Keeps quiet (announce_reservation E svc key r)
  unfolding announce_reservation
  announce_reservation-Quiet svc key r =
      then-Keeps quiet _ _ (wrap-Keeps quiet _ _ (set_ttl-Quiet svc.reservation_ttl r.id)) (
        then-Keeps quiet _ _ (remember-Quiet key r) (
          bind-Keeps quiet _ _ (stock_count-Quiet r.sale_id) λ n.
            then-Keeps quiet _ _ (publish_stock-Quiet svc r.sale_id n) (
              then-Keeps quiet _ _ (publish_sold_out-Quiet svc r.sale_id n)
                (then-Keeps quiet _ _ (write_audit-Quiet _ _ _) (pure-Keeps quiet r)))))

  -- All that follows the update of a row that gives its unit back.
  pub announce_return-Quiet :
      (svc : Service) (id sale : ℕ) (event : EventType)
      → Keeps quiet (announce_return E svc id sale event)
  unfolding announce_return
  announce_return-Quiet svc id sale event =
      bind-Keeps quiet _ _ (stock_count-Quiet sale)
        λ n. then-Keeps quiet _ _ (publish_stock-Quiet svc sale n) (write_audit-Quiet _ _ _)

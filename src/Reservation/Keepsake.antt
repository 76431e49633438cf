-- ===== src/Reservation/Keepsake.antt =====
-- What Reserve leaves for a later call with the same key: which of its calls succeed, and which keep
-- the keys of Redis and the rows as they find them.
use flash_sale.Common.{
  ℕ, ◌≡◌, refl, ap, ◌∙◌, Option, none, some, List, [], ◌∷◌, Text, codes, Bool, true, false,
  if◌then◌else◌,
}
use flash_sale.Common.Int.{ℤ, pos, eqb_ℤ}
use flash_sale.Platform.{Platform}
use flash_sale.Models.{Reservation, EventType, Event, AuditEntry}
use flash_sale.Database.{insert_audit}
use flash_sale.Effects.{
  World, Action, Result, ok, err, caught, ◌>>=◌, ◌>>◌, attempt, pure, redis_call, db_exec, publish,
}
use flash_sale.Effects.Keeps.{
  Preorder, Keeps, pure-Keeps, attempt-Keeps, bind-Keeps, then-Keeps, if-Keeps,
}
use flash_sale.Effects.Steps.{answered, bind-ok}
use flash_sale.Redis.Script.{get}
use flash_sale.Redis.Keys.{available_key}
use flash_sale.Reservation.{
  Service, audited, announce_return, stock_count, publish_stock, publish_sold_out, write_audit,
}

module _ (E : Platform) where
  -- From a state without faults, the keys and the rows stay, and no fault appears.
  pub record Same (w w' : World E) : Type 0 where
    pub keys : w.faults ≡ [] → E.lookup w'.redis ≡ E.lookup w.redis
    pub rows : w.faults ≡ [] → w'.db.reservations ≡ w.db.reservations
    pub calm : w.faults ≡ [] → w'.faults ≡ []

  abbrev pub same : Preorder E
  same = record {
    Rel = Same;
    reflexive = λ w. record { keys = λ e. refl; rows = λ e. refl; calm = λ e. e };
    transitive = λ u v w p q. record {
      keys = λ e. q.keys (p.calm e) ∙ p.keys e;
      rows = λ e. q.rows (p.calm e) ∙ p.rows e;
      calm = λ e. q.calm (p.calm e);
    };
  }

  get-Same : (k : Text) → Keeps same (redis_call (get E k))
  unfolding redis_call
  get-Same k = record {
    holds = λ w. record { keys = λ e. rw e; rows = λ e. refl; calm = λ e. rw e };
  }

  publish-Same : (channel : Text) (event : Event) → Keeps same (publish channel event)
  unfolding publish
  publish-Same channel event = record {
    holds = λ w. record {
      keys = λ e. rw e (E.lookup-publish channel event w.redis);
      rows = λ e. refl;
      calm = λ e. rw e;
    };
  }

  insert_audit-Same : (entry : AuditEntry) → Keeps same (db_exec (insert_audit entry))
  unfolding db_exec insert_audit
  insert_audit-Same entry = record {
    holds = λ w. record { keys = λ e. refl; rows = λ e. rw e; calm = λ e. rw e };
  }

  told-Same :
      (channel : Text) (event : Event) → Keeps same (attempt (publish channel event) >> pure tt)
  told-Same channel event =
      then-Keeps same _ _ (attempt-Keeps same _ (publish-Same channel event)) (pure-Keeps same tt)

  -- An action that never fails.
  record Sure {A : Type 0} (m : Action E A) : Type 0 where
    result : (w : World E) → (a : A) × ((m w).0 ≡ ok a)

  pure-Sure : {A : Type 0} (a : A) → Sure (pure a)
  pure-Sure a = record { result = λ w. (a, refl) }

  attempt-Sure : {A : Type 0} (m : Action E A) → Sure (attempt m)
  attempt-Sure {A} m = record { result = λ w. caught_ok (m w).0 }
    where
      caught_ok : (r : Result A) → (o : Option A) × (caught r ≡ ok o)
      caught_ok (ok a) = (some a, refl)
      caught_ok (err e) = (none, refl)

  bind-Sure :
      {A B : Type 0} (m : Action E A) (f : A → Action E B)
      → Sure m
      → ((a : A) → Sure (f a))
      → Sure (m >>= f)
  bind-Sure m f h k = record {
    result = λ w.
        let (a, e) = h.result w in
        let (b, g) = (k a).result (m w).1 in (b, ap (λ p. p.0) (bind-ok m f (answered m w e)) ∙ g);
  }

  if-Sure : {A : Type 0} (b : Bool) (m k : Action E A) → Sure m → Sure k → Sure (if b then m else k)
  if-Sure true m k h h' = h
  if-Sure false m k h h' = h'

  told-Sure : (channel : Text) (event : Event) → Sure (attempt (publish channel event) >> pure tt)
  told-Sure channel event = bind-Sure _ _ (attempt-Sure _) (λ _. pure-Sure tt)

  module _ (svc : Service) (r : Reservation) (payload : List (Text × Text)) (n : ℤ) where
    stock-Same : Keeps same (publish_stock E svc r.sale_id n)
    unfolding publish_stock
    stock-Same = if-Keeps same svc.has_publisher _ _ (told-Same _ _) (pure-Keeps same tt)

    end-Same : Keeps same (publish_sold_out E svc r.sale_id n)
    unfolding publish_sold_out
    end-Same =
        if-Keeps same svc.has_publisher _ _
          (if-Keeps same (eqb_ℤ n (pos 0)) _ _ (told-Same _ _) (pure-Keeps same tt))
          (pure-Keeps same tt)

    audit-Same : Keeps same (write_audit E EventType.reserved r.id payload)
    unfolding write_audit
    audit-Same =
        then-Keeps same _ _ (attempt-Keeps same _ (insert_audit-Same _)) (pure-Keeps same tt)

    stock-Sure : Sure (publish_stock E svc r.sale_id n)
    unfolding publish_stock
    stock-Sure = if-Sure svc.has_publisher _ _ (told-Sure _ _) (pure-Sure tt)

    end-Sure : Sure (publish_sold_out E svc r.sale_id n)
    unfolding publish_sold_out
    end-Sure =
        if-Sure svc.has_publisher _ _ (if-Sure (eqb_ℤ n (pos 0)) _ _ (told-Sure _ _) (pure-Sure tt))
          (pure-Sure tt)

    audit-Sure : Sure (write_audit E EventType.reserved r.id payload)
    unfolding write_audit
    audit-Sure = bind-Sure _ _ (attempt-Sure _) (λ _. pure-Sure tt)

  stock_count-Sure : (sale : ℕ) → Sure (stock_count E sale)
  unfolding stock_count
  stock_count-Sure sale = bind-Sure _ _ (attempt-Sure _) (λ v. pure-Sure _)

  stock_count-Same : (sale : ℕ) → Keeps same (stock_count E sale)
  unfolding stock_count
  stock_count-Same sale =
      bind-Keeps same _ _ (attempt-Keeps same _ (get-Same (available_key E sale)))
        (λ v. pure-Keeps same _)

  abbrev pub payload_of : Reservation → List (Text × Text)
  payload_of r =
      (codes "user_id", E.uuid_string r.user_id)
      ∷ (codes "sale_id", E.uuid_string r.sale_id)
      ∷ (codes "item_id", E.uuid_string r.item_id)
      ∷ []

  -- The tail of a reservation, after its keys are written.
  abbrev pub tail : Service → Reservation → Action E Reservation
  tail svc r = do
    available ← stock_count E r.sale_id
    publish_stock E svc r.sale_id available
    publish_sold_out E svc r.sale_id available
    write_audit E EventType.reserved r.id (payload_of r)
    pure r

  pub tail-Same : (svc : Service) (r : Reservation) → Keeps same (tail svc r)
  tail-Same svc r = bind-Keeps same _ _ (stock_count-Same r.sale_id) λ n.
      then-Keeps same _ _ (stock-Same svc r (payload_of r) n) (
        then-Keeps same _ _ (end-Same svc r (payload_of r) n)
          (then-Keeps same _ _ (audit-Same svc r (payload_of r) n) (pure-Keeps same r)))

  -- An action that always returns one value.
  pub record Yields {B : Type 0} (m : Action E B) (b : B) : Type 0 where
    pub yields : (w : World E) → (m w).0 ≡ ok b

  then-Sure :
      {A B : Type 0} (m : Action E A) (f : A → Action E B) {b : B}
      → Sure m
      → ((a : A) → Yields (f a) b)
      → Yields (m >>= f) b
  then-Sure m f h k = record {
    yields = λ w.
        let (a, e) = h.result w in
        ap (λ p. p.0) (bind-ok m f (answered m w e)) ∙ (k a).yields (m w).1;
  }

  pub tail-Yields : (svc : Service) (r : Reservation) → Yields (tail svc r) r
  tail-Yields svc r = then-Sure _ _ (stock_count-Sure r.sale_id) λ n.
      then-Sure _ _ (stock-Sure svc r (payload_of r) n) λ _.
        then-Sure _ _ (end-Sure svc r (payload_of r) n) λ _.
          then-Sure _ (λ _. pure r) (audit-Sure svc r (payload_of r) n)
            (λ _. record { yields = λ w. refl })

  write_audit-Yields :
      (event : EventType) (id : ℕ) (payload : List (Text × Text))
      → Yields (write_audit E event id payload) tt
  unfolding write_audit
  write_audit-Yields event id payload =
      then-Sure (attempt (db_exec (insert_audit (audited E event id payload)))) (λ _. pure tt)
        (attempt-Sure (db_exec (insert_audit (audited E event id payload))))
        (λ _. record { yields = λ w. refl })

  -- The tail of a return, after the row is written.
  pub announce_return-Yields :
      (svc : Service) (r : Reservation) (event : EventType)
      → Yields (announce_return E svc r.id r.sale_id event) tt
  unfolding announce_return
  announce_return-Yields svc r event = then-Sure _ _ (stock_count-Sure r.sale_id) λ n.
      then-Sure _ (λ _. write_audit E event r.id ((codes "sale_id", E.uuid_string r.sale_id) ∷ []))
        (stock-Sure svc r (payload_of r) n) (λ _. write_audit-Yields event r.id _)

-- ===== src/Reservation/Confirmation.antt =====
-- internal/reservation/service.go: Confirm. The order's identifier is drawn by the caller.
use flash_sale.Common.{ℕ, Option, none, some, [], ◌∷◌, Text, codes, if◌then◌else◌}
use flash_sale.Common.Int.{ℤ, negsuc, eqb_ℤ}
use flash_sale.Platform.{Platform}
use flash_sale.Models.{ReservationStatus, Reservation, OrderStatus, Order, EventType}
use flash_sale.Database.{
  ReservationRow, find_reservation, find_order_by_key, set_confirmed, insert_order, insert_audit,
  is_reserved,
}
use flash_sale.Effects.{
  Action, Error, pure, fail, wrap, attempt, ◌>>=◌, ◌>>◌, db_query, begin, tx_exec, commit,
}
use flash_sale.Redis.Client
use flash_sale.Reservation.{is_empty, give_back, unless_replayed, audited}

module _ (E : Platform) where
  -- `getOrderByIdempotencyKey`
  unfoldable pub order_by_key : Text → Action E Order
  order_by_key key = db_query (λ t. find_order_by_key key t.orders)

  unfoldable pub replay_order : Text → Action E (Option Order)
  replay_order key = if is_empty key then pure none else attempt (order_by_key key)

  abbrev pub or_give_back : {A : Type 0} → Error → ℕ → Option A → Action E A
  or_give_back error sale none = give_back E error sale
  or_give_back error sale (some a) = pure a

  -- `if err != nil { s.redis.Release(…); return …}`
  unfoldable pub or_release : {A : Type 0} → Error → ℕ → Action E A → Action E A
  or_release error sale m = do r ← attempt m; or_give_back error sale r

  abbrev pub new_order : Reservation → Text → ℕ → ℕ → Order
  new_order r key id now = record {
    id = id;
    reservation_id = r.id;
    user_id = r.user_id;
    sale_id = r.sale_id;
    amount = 0;
    status = OrderStatus.pending;
    idempotency_key = key;
    created_at = now;
  }

  -- The transaction: update the reservation, insert the order, write the audit entry, commit.
  unfoldable pub confirm_rows : Reservation → Order → ℕ → Action E Order
  confirm_rows r order now = do
    tx ← wrap Error.begin_failed begin
    updated ←
        or_release Error.update_failed r.sale_id
          (tx_exec (set_confirmed ReservationStatus.confirmed now r.id) tx)
    ordered ← or_release Error.create_order_failed r.sale_id (tx_exec (insert_order order) updated)
    logged ← or_release Error.audit_failed r.sale_id (
        tx_exec
          (insert_audit
            (audited E EventType.confirmed r.id ((codes "order_id", E.uuid_string order.id) ∷ [])))
          ordered)
    or_release Error.commit_failed r.sale_id (commit logged)
    pure order

  abbrev pub settle_confirm : Reservation → Order → ℕ → ℤ → Action E Order
  settle_confirm r order now result =
      if eqb_ℤ result (negsuc 0) then fail Error.invalid_state else confirm_rows r order now

  unfoldable pub confirm_reserved : Reservation → Order → ℕ → Action E Order
  confirm_reserved r order now = do
    result ← wrap Error.redis_confirm_failed (Client.confirm E r.sale_id)
    settle_confirm r order now result

  abbrev pub confirm_row : Text → ℕ → ℕ → ReservationRow → Action E Order
  confirm_row key order_id now row =
      if is_reserved row.status
      then confirm_reserved row.reservation (new_order row.reservation key order_id now) now
      else fail Error.not_reserved

  unfoldable pub confirm_new : ℕ → Text → ℕ → ℕ → Action E Order
  confirm_new id key order_id now = do
    row ← wrap Error.reservation_not_found (db_query (λ t. find_reservation id t.reservations))
    confirm_row key order_id now row

  -- Service.Confirm
  unfoldable pub confirm : ℕ → Text → ℕ → ℕ → Action E Order
  confirm id key order_id now = do
    existing ← replay_order key
    unless_replayed E (confirm_new id key order_id now) existing

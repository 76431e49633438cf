-- ===== src/Api/Kept.antt =====
-- The handlers keep the counters in step with the rows.
use flash_sale.Common.{ℕ, Option, some, none, Text, Bool-cases, inl, inr}
use flash_sale.Platform.{Platform}
use flash_sale.Database.{find_order}
use flash_sale.Effects.{World, Action, Result, ok, err}
use flash_sale.Effects.Keeps.{Keeps}
use flash_sale.Models.{SaleStatus}
use flash_sale.Reservation.{is_empty, Service}
use flash_sale.Reservation.Sync.{InSync, sync}
use flash_sale.Reservation.Reserve.{reserve-InSync}
use flash_sale.Reservation.Release.{release-InSync}
use flash_sale.Waitlist.Sync.{join-sync, get_position-sync, leave-sync}
use flash_sale.Inventory.Sync.{query-sync, get_sale-sync, update_sale_status-sync}
use flash_sale.RateLimit.{Limiter, Verdict, allow}
use flash_sale.RateLimit.Leaves.{allow-sync}
use flash_sale.Api.{Handler, respond, Response, with_id, with_body, answer_with}
use flash_sale.Api.Reservations.{ReserveRequest}
use flash_sale.Api.Reservations
use flash_sale.Api.Sales
use flash_sale.Api.Waitlists
use flash_sale.Api.Orders
use flash_sale.Api.Router.{Request, rate_limited, settle_limit, limited_user}

module _ (E : Platform) (totals : ℕ → ℕ) where
  -- A handler that keeps the counters in step.
  pub record Safe (h : Handler E) : Type 0 where
    pub holds : (w : World E) → InSync E totals w → InSync E totals (h w).1

  answer-Safe : (r : Response) → Safe (answer_with r)
  answer-Safe r = record { holds = λ w v. v }

  respond-Safe :
      {A : Type 0} (reply : Result A → Response) (m : Action E A)
      → Keeps (sync E totals) m
      → Safe (respond reply m)
  respond-Safe reply m h = record { holds = h.holds }

  with_id-Safe :
      (reason : Text) (o : Option ℕ) (h : ℕ → Handler E)
      → ((id : ℕ) → Safe (h id))
      → Safe (with_id reason o h)
  with_id-Safe reason none h k = answer-Safe _
  with_id-Safe reason (some id) h k = k id

  with_body-Safe :
      {A : Type 0} (o : Option A) (h : A → Handler E)
      → ((a : A) → Safe (h a))
      → Safe (with_body o h)
  with_body-Safe none h k = answer-Safe _
  with_body-Safe (some a) h k = k a

  settle_limit-Safe : (h : Handler E) (r : Result Verdict) → Safe h → Safe (settle_limit E h r)
  settle_limit-Safe h (ok v) k = elim (Bool-cases v.allowed) [
    | inl fast ↦ rw fast (record { holds = k.holds })
    | inr slow ↦ rw slow (answer-Safe _)
  ]
  settle_limit-Safe h (err e) k = answer-Safe _

  pub rate_limited-Safe :
      (lim : Limiter) (req : Request) (h : Handler E) → Safe h → Safe (rate_limited E lim req h)
  unfolding rate_limited
  rate_limited-Safe lim req h k = record {
    holds = λ w v.
        let p = allow E lim (limited_user req) req.now_ms w in
        (settle_limit-Safe h p.0 k).holds p.1
          ((allow-sync E totals lim (limited_user req) req.now_ms).holds w v);
  }

  pub get_sale-Safe : (id : Text) → Safe (Sales.get_sale E id)
  unfolding Sales.get_sale
  get_sale-Safe id =
      with_id-Safe _ (E.parse_uuid id) _
        λ i. respond-Safe Sales.get_reply _ (get_sale-sync E totals i)

  pub update_status-Safe :
      (id : Text) (body : Option SaleStatus) → Safe (Sales.update_status E id body)
  unfolding Sales.update_status
  update_status-Safe id body = with_id-Safe _ (E.parse_uuid id) _ λ i.
      with_body-Safe body _
        λ status. respond-Safe Sales.update_reply _ (update_sale_status-sync E totals i status)

  pub reserve-Safe :
      (svc : Service) (id : Text) (body : Option ReserveRequest) (key : Text) (fresh now : ℕ)
      → Safe (Reservations.reserve E svc id body key fresh now)
  unfolding Reservations.reserve
  reserve-Safe svc id body key fresh now = with_id-Safe _ (E.parse_uuid id) _ λ sale.
      with_body-Safe body _ λ req.
        respond-Safe Reservations.reserve_reply _ (record {
          holds = reserve-InSync E totals svc req.user_id sale req.item_id key fresh now;
        })

  pub release-Safe : (svc : Service) (id : Text) → Safe (Reservations.release E svc id)
  unfolding Reservations.release
  release-Safe svc id = with_id-Safe _ (E.parse_uuid id) _ λ i.
      respond-Safe Reservations.release_reply _ (record { holds = release-InSync E totals svc i })

  pub join-Safe : (id : Text) (body : Option ℕ) (now : ℕ) → Safe (Waitlists.join E id body now)
  unfolding Waitlists.join
  join-Safe id body now = with_id-Safe _ (E.parse_uuid id) _ λ sale.
      with_body-Safe body _
        λ user. respond-Safe Waitlists.join_reply _ (join-sync E totals sale user now)

  pub get_position-Safe : (id user : Text) → Safe (Waitlists.get_position E id user)
  unfolding Waitlists.get_position
  get_position-Safe id user = with_id-Safe _ (E.parse_uuid id) _ λ sale.
      elim (Bool-cases (is_empty user)) [
        | inl missing ↦ rw missing (answer-Safe _)
        | inr given ↦ rw given (
            with_id-Safe _ (E.parse_uuid user) _
              λ u. respond-Safe Waitlists.position_reply _ (get_position-sync E totals sale u))
      ]

  pub leave-Safe : (id : Text) (body : Option ℕ) → Safe (Waitlists.leave E id body)
  unfolding Waitlists.leave
  leave-Safe id body = with_id-Safe _ (E.parse_uuid id) _ λ sale.
      with_body-Safe body _
        λ user. respond-Safe Waitlists.leave_reply _ (leave-sync E totals sale user)

  pub get_order-Safe : (id : Text) → Safe (Orders.get_order E id)
  unfolding Orders.get_order
  get_order-Safe id =
      with_id-Safe _ (E.parse_uuid id) _
        λ i. respond-Safe Orders.order_reply _ (query-sync E totals (λ t. find_order i t.orders))

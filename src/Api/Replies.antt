-- ===== src/Api/Replies.antt =====
-- No result of a service is answered with 400.
use flash_sale.Common.{◌≢◌, arith}
use flash_sale.Models.{Reservation, Order, Sale}
use flash_sale.Effects.{Result, ok, err, Error}
use flash_sale.Inventory.{SaleStats}
use flash_sale.Waitlist.{JoinResponse, PositionResponse}
use flash_sale.Api.Reservations
use flash_sale.Api.Sales
use flash_sale.Api.Waitlists
use flash_sale.Api.Orders

pub reserve_reply-ne : (r : Result Reservation) → (Reservations.reserve_reply r).status ≢ 400
reserve_reply-ne (ok r) e = omega arith
reserve_reply-ne (err Error.sold_out) e = omega arith
reserve_reply-ne (err x) e = omega arith

pub confirm_reply-ne : (r : Result Order) → (Reservations.confirm_reply r).status ≢ 400
confirm_reply-ne (ok o) e = omega arith
confirm_reply-ne (err x) e = omega arith

pub release_reply-ne : (r : Result (Unit {0})) → (Reservations.release_reply r).status ≢ 400
release_reply-ne (ok _) e = omega arith
release_reply-ne (err x) e = omega arith

pub create_reply-ne : (r : Result Sale) → (Sales.create_reply r).status ≢ 400
create_reply-ne (ok s) e = omega arith
create_reply-ne (err x) e = omega arith

pub get_reply-ne : (r : Result (Sale × SaleStats)) → (Sales.get_reply r).status ≢ 400
get_reply-ne (ok (s, stats)) e = omega arith
get_reply-ne (err x) e = omega arith

pub update_reply-ne : (r : Result (Unit {0})) → (Sales.update_reply r).status ≢ 400
update_reply-ne (ok _) e = omega arith
update_reply-ne (err x) e = omega arith

pub join_reply-ne : (r : Result JoinResponse) → (Waitlists.join_reply r).status ≢ 400
join_reply-ne (ok j) e = omega arith
join_reply-ne (err Error.stock_available) e = omega arith
join_reply-ne (err Error.already_waiting) e = omega arith
join_reply-ne (err x) e = omega arith

pub position_reply-ne : (r : Result PositionResponse) → (Waitlists.position_reply r).status ≢ 400
position_reply-ne (ok p) e = omega arith
position_reply-ne (err x) e = omega arith

pub leave_reply-ne : (r : Result (Unit {0})) → (Waitlists.leave_reply r).status ≢ 400
leave_reply-ne (ok _) e = omega arith
leave_reply-ne (err x) e = omega arith

pub order_reply-ne : (r : Result Order) → (Orders.order_reply r).status ≢ 400
order_reply-ne (ok o) e = omega arith
order_reply-ne (err x) e = omega arith

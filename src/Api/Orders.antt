-- ===== src/Api/Orders.antt =====
-- internal/api/handlers/orders.go
use flash_sale.Common.{Text, codes}
use flash_sale.Platform.{Platform}
use flash_sale.Models.{Order}
use flash_sale.Database.{find_order}
use flash_sale.Effects.{Result, ok, err, db_query}
use flash_sale.Api.{Content, message, Response, http_error, json_reply, Handler, respond, with_id}

abbrev pub order_reply : Result Order → Response
order_reply (ok o) = json_reply 200 (Content.order o)
order_reply (err e) = http_error 404 (message (codes "Order not found"))

-- OrdersHandler.GetOrder
unfoldable pub get_order : (E : Platform) → Text → Handler E
get_order E id_text =
    with_id (codes "Invalid order ID") (E.parse_uuid id_text)
      λ id. respond order_reply (db_query (λ t. find_order id t.orders))

-- ===== src/Api/Sales.antt =====
-- internal/api/handlers/sales.go
use flash_sale.Common.{ℕ, Option, none, some, Text, codes}
use flash_sale.Platform.{Platform}
use flash_sale.Models.{Sale, SaleStatus}
use flash_sale.Effects.{Result, ok, err}
use flash_sale.Inventory.{SaleInput, SaleStats}
use flash_sale.Inventory
use flash_sale.Api.{
  Content, failure, Response, http_error, json_reply, no_content, Handler, respond, with_id,
  with_body,
}

abbrev pub create_reply : Result Sale → Response
create_reply (ok s) = json_reply 201 (Content.sale s none)
create_reply (err e) = http_error 500 (failure e)

abbrev pub get_reply : Result (Sale × SaleStats) → Response
get_reply (ok (s, stats)) = json_reply 200 (Content.sale s (some stats))
get_reply (err e) = http_error 404 (failure e)

abbrev pub update_reply : Result (Unit {0}) → Response
update_reply (ok _) = no_content
update_reply (err e) = http_error 500 (failure e)

module _ (E : Platform) where
  -- SalesHandler.CreateSale; the request's fields are those of a SaleInput.
  unfoldable pub create_sale : Option SaleInput → ℕ → ℕ → Handler E
  create_sale body id now =
      with_body body λ req. respond create_reply (Inventory.create_sale E req id now)

  -- SalesHandler.GetSale
  unfoldable pub get_sale : Text → Handler E
  get_sale sale_text =
      with_id (codes "Invalid sale ID") (E.parse_uuid sale_text)
        λ id. respond get_reply (Inventory.get_sale E id)

  -- SalesHandler.UpdateSaleStatus
  unfoldable pub update_status : Text → Option SaleStatus → Handler E
  update_status sale_text body =
      with_id (codes "Invalid sale ID") (E.parse_uuid sale_text) λ id.
        with_body body λ status. respond update_reply (Inventory.update_sale_status E id status)

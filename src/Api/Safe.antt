-- ===== src/Api/Safe.antt =====
-- No request to the HTTP API oversells a sale.
use flash_sale.Common.{ℕ, ◌≡◌, Option, some, none, ◌==◌, if◌then◌else◌}
use flash_sale.Common.Int.{pos, pos_part}
use flash_sale.Platform.{Platform}
use flash_sale.Database.{Tables, ReservationRow, find_reservation, insert_sale}
use flash_sale.Effects.{World}
use flash_sale.Reservation.Sync.{reserved_in, sold_in}
use flash_sale.Reservation.Confirmed.{Accepts}
use flash_sale.Inventory.{new_sale}
use flash_sale.System.{Step}
use flash_sale.Api.Reservations.{ReserveRequest}
use flash_sale.Api.Reservations
use flash_sale.Api.Sales
use flash_sale.Api.Router.{Route, Request, Server, serve, create_sale, confirm}

-- What serving a route needs: a sale is created with a stock that is not negative, under an identifier
-- that no row bears; a confirmation is of a reservation whose order the orders table takes.
abbrev pub Allowed : (E : Platform) → Request → World E → Route → Type 0
Allowed E req w (create_sale (some input)) =
    (input.total_stock ≡ pos (pos_part input.total_stock))
    × (reserved_in w.db req.fresh_id ≡ 0)
    × (sold_in w.db req.fresh_id ≡ 0)
Allowed E req w (confirm id_text) =
    (id : ℕ) (row : ReservationRow)
    → E.parse_uuid id_text ≡ some id
    → find_reservation id w.db.reservations ≡ some row
    → Accepts E req.idempotency_key req.fresh_id req.now w.db row
Allowed E req w other = Unit {0}

abbrev pub with_sale : ℕ → ℕ → (ℕ → ℕ) → Option Tables → ℕ → ℕ
with_sale id n totals none = totals
with_sale id n totals (some t) = λ b. if b == id then n else totals b

-- The totals of the sales after a request: a new sale has its own.
abbrev pub totals_after : {E : Platform} → Request → World E → (ℕ → ℕ) → Route → ℕ → ℕ
totals_after req w totals (create_sale (some input)) =
    with_sale req.fresh_id (pos_part input.total_stock) totals
      (insert_sale (new_sale input req.fresh_id req.now) w.db)
totals_after req w totals other = totals

-- The server at work: requests one after another, and between them whatever else moves the stock: the
-- expiries with their promotions, and the expiry warnings. The totals of the sales are an index,
-- since a request may create a sale.
pub data Served (E : Platform) (srv : Server) (totals : ℕ → ℕ) (w : World E)
    : (ℕ → ℕ) → World E → Type 0 where
  begun : Served E srv totals w totals w
  asked :
      (now_totals : ℕ → ℕ) (u : World E)
      → Served E srv totals w now_totals u
      → (req : Request) → Allowed E req u req.route
      → Served E srv totals w (totals_after req u now_totals req.route) (serve E srv req u).1
  worked :
      (now_totals : ℕ → ℕ) (u v : World E)
      → Served E srv totals w now_totals u
      → Step E srv.service u v
      → Served E srv totals w now_totals v

-- ===== src/Server/Boot.antt =====
-- cmd/server/main.go: what the server does with its stores before it serves. The connections, the
-- loading of scripts and what runs beside the server are left out; an error ends the program.
use flash_sale.Common.{ℕ, true}
use flash_sale.Platform.{Platform}
use flash_sale.Effects.{Action, pure, ◌>>◌}
use flash_sale.Reconcile.Startup.{reconcile_on_startup}
use flash_sale.RateLimit.{Limiter}
use flash_sale.Api.Router.{Server}

-- The configuration, as far as the services take it.
pub record Config : Type 0 where
  pub reservation_ttl : ℕ
  pub limiter : Limiter

abbrev pub serving : Config → Server
serving cfg = record {
  service = record { reservation_ttl = cfg.reservation_ttl; has_publisher = true };
  limiter = cfg.limiter;
  reconciliation_complete = true;
}

-- main, from the reconciliation up to the router.
unfoldable pub start : (E : Platform) → Config → ℕ → Action E Server
start E cfg now = do reconcile_on_startup E now; pure (serving cfg)

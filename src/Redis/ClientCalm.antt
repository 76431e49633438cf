-- ===== src/Redis/ClientCalm.antt =====
-- The client's stock methods when the network lets every call through and the counters are in step.
use flash_sale.Common.{ℕ, ◌+◌, ◌≤◌, ◌<◌, ◌≡◌, ap, [], Option}
use flash_sale.Common.Int.{ℤ, pos, negsuc}
use flash_sale.Platform.{Platform}
use flash_sale.Effects.{World, ok, pure, redis_call}
use flash_sale.Effects.Steps.{then-ok}
use flash_sale.Effects.Calm.{redis_call_calm}
use flash_sale.Redis.Keys.{available_key, reserved_key, meta_key}
use flash_sale.Redis.Scripts
use flash_sale.Redis.Client
use flash_sale.Redis.Counts.{AllCounts}
use flash_sale.Redis.Moves.{
  reserve-AllCounts, reserve_none_left, release-AllCounts, confirm-AllCounts,
}

module _ (E : Platform) (sale : ℕ) where
  abbrev pub reserve_script : E.Store → Option ℤ × E.Store
  reserve_script = Scripts.reserve E (available_key E sale) (reserved_key E sale)

  abbrev pub release_script : E.Store → Option ℤ × E.Store
  release_script = Scripts.release E (available_key E sale) (reserved_key E sale)

  abbrev pub confirm_script : E.Store → Option ℤ × E.Store
  confirm_script = Scripts.confirm E (reserved_key E sale) (available_key E sale) (meta_key E sale)

module _ (E : Platform) (w : World E) (sale : ℕ) where
  abbrev pub after_reserve : World E
  after_reserve = record w { redis = (reserve_script E sale w.redis).1; faults = [] }

  abbrev pub after_release : World E
  after_release = record w { redis = (release_script E sale w.redis).1; faults = [] }

  abbrev pub after_confirm : World E
  after_confirm = record w { redis = (confirm_script E sale w.redis).1; faults = [] }

module _ (E : Platform) (totals q o : ℕ → ℕ) (w : World E) (sale : ℕ) where
  module _ (calm : w.faults ≡ []) (all : AllCounts E totals q o w.redis) where
    pub reserve_calm :
        q sale + o sale < totals sale
        → Client.reserve E sale w ≡ (ok (pos 1), after_reserve E w sale)
    unfolding Client.reserve
    reserve_calm room =
        redis_call_calm w calm _ (reserve-AllCounts E totals q o w.redis sale all room).0

    pub reserve_full :
        q sale + o sale ≡ totals sale
        → Client.reserve E sale w ≡ (ok (negsuc 0), record w { faults = [] })
    unfolding Client.reserve
    reserve_full full =
        let e = reserve_none_left E totals q o w.redis sale all full in
        rw (redis_call_calm w calm (reserve_script E sale) (ap (λ t. t.0) e), e)

    pub release_calm : 1 ≤ q sale → Client.release E sale w ≡ (ok tt, after_release E w sale)
    unfolding Client.release
    release_calm taken = then-ok (redis_call (release_script E sale)) (pure tt) (
        redis_call_calm w calm (release_script E sale)
          (release-AllCounts E totals q o w.redis sale all taken).0)

    pub confirm_calm : 1 ≤ q sale → Client.confirm E sale w ≡ (ok (pos 1), after_confirm E w sale)
    unfolding Client.confirm
    confirm_calm taken =
        redis_call_calm w calm _ (confirm-AllCounts E totals q o w.redis sale all taken).0

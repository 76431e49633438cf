-- ===== src/Redis/Moves.antt =====
-- How each stock script moves the counters of all sales.
use flash_sale.Common.{ℕ, ◌+◌, ◌-◌, ◌≤◌, ◌<◌, ◌≡◌, ◌≢◌, sym, ap, ◌∙◌, some, Text, arith}
use flash_sale.Common.Int.{pos, negsuc, ◌+ℤ◌, ◌-ℤ◌, int_laws}
use flash_sale.Platform.{Platform}
use flash_sale.Platform.Keyspace.{integer_at, str, num}
use flash_sale.Redis.Keys.{available_key, reserved_key, meta_key, waitlist_key}
use flash_sale.Redis.Apart.{
  reserved_key-injective, reserved_key-ne-available_key, waitlist_key-ne-available_key,
  waitlist_key-ne-reserved_key,
}
use flash_sale.Redis.Scripts.{reserve, release, confirm}
use flash_sale.Redis.Counters.{put_self, put_ne}
use flash_sale.Redis.Stock.{reserve_takes, reserve_sold_out, release_returns, confirm_takes}
use flash_sale.Redis.Counts.{
  AllCounts, at_sale, at_self, at_other, spread, stocked-AllCounts, elsewhere,
}

module _ (E : Platform) where
  module _ (totals q o : ℕ → ℕ) (s : E.Store) (sale : ℕ) (all : AllCounts E totals q o s) where
    -- On counters that are in step, of a sale with a unit left, reserve.lua answers 1 and counts
    -- one more unit of that sale as reserved, and the counters of every sale stay in step.
    pub reserve-AllCounts :
        q sale + o sale < totals sale
        → let (v, s') = reserve E (available_key E sale) (reserved_key E sale) s in
          (v ≡ some (pos 1)) × AllCounts E totals (λ b. q b + at_sale sale b) o s'
    reserve-AllCounts room =
        let c = all sale in
        let (v, e) =
          reserve_takes E (available_key E sale) (reserved_key E sale) s
            (pos (totals sale - (q sale + o sale))) (pos (q sale))
            (reserved_key-ne-available_key E sale sale) c.available_held c.reserved_held
            (omega arith) (omega (int_laws, c.small, c.within)) in
        (
          v,
          stocked-AllCounts E totals q (λ b. q b + at_sale sale b) o s _ sale all e
              (λ b h. omega (arith, at_other sale b h)) (omega (arith, at_self sale))
              (omega (int_laws, at_self sale)) (omega (int_laws, at_self sale)),
        )

    -- It refuses a sale that has none, and writes nothing.
    pub reserve_none_left :
        q sale + o sale ≡ totals sale
        → reserve E (available_key E sale) (reserved_key E sale) s ≡ (some (negsuc 0), s)
    reserve_none_left full =
        reserve_sold_out E (available_key E sale) (reserved_key E sale) s
          (pos (totals sale - (q sale + o sale))) (pos (q sale)) (all sale).available_held
          (omega arith)

    -- On counters that are in step, of a sale with a reserved unit, release.lua answers 1 and
    -- counts one unit of that sale less as reserved, and the counters of every sale stay in step.
    pub release-AllCounts :
        1 ≤ q sale
        → let (v, s') = release E (available_key E sale) (reserved_key E sale) s in
          (v ≡ some (pos 1)) × AllCounts E totals (λ b. q b - at_sale sale b) o s'
    release-AllCounts taken =
        let c = all sale in
        let (v, e) =
          release_returns E (available_key E sale) (reserved_key E sale) s
            (pos (totals sale - (q sale + o sale))) (pos (q sale))
            (reserved_key-ne-available_key E sale sale) c.available_held c.reserved_held
            (omega (int_laws, c.small)) (omega (int_laws, c.small)) in
        (
          v,
          stocked-AllCounts E totals q (λ b. q b - at_sale sale b) o s _ sale all e
              (λ b h. omega (arith, at_other sale b h)) (omega (arith, at_self sale, c.within))
              (omega (int_laws, at_self sale, c.within)) (omega (int_laws, at_self sale)),
        )

    pub release_keeps_waitlist :
        1 ≤ q sale
        → (b : ℕ)
        → E.lookup (release E (available_key E sale) (reserved_key E sale) s).1 (waitlist_key E b)
          ≡ E.lookup s (waitlist_key E b)
    release_keeps_waitlist taken b =
        let c = all sale in
        let a = pos (totals sale - (q sale + o sale)) in
        let (v, e) =
          release_returns E (available_key E sale) (reserved_key E sale) s a (pos (q sale))
            (reserved_key-ne-available_key E sale sale) c.available_held c.reserved_held
            (omega (int_laws, c.small)) (omega (int_laws, c.small)) in
        elsewhere E s _ sale (a +ℤ pos 1) (pos (q sale) -ℤ pos 1) (waitlist_key E b) e
          (waitlist_key-ne-available_key E b sale) (waitlist_key-ne-reserved_key E b sale)

    -- On counters that are in step, of a sale with a reserved unit, confirm.lua answers 1 and
    -- counts one unit of that sale as sold and no longer as reserved, and the counters of every
    -- sale stay in step.
    pub confirm-AllCounts :
        1 ≤ q sale
        → let (v, s') =
            confirm E (reserved_key E sale) (available_key E sale) (meta_key E sale) s in
          (v ≡ some (pos 1))
          × AllCounts E totals (λ b. q b - at_sale sale b) (λ b. o b + at_sale sale b) s'
    confirm-AllCounts taken =
        let c = all sale in
        let kr = reserved_key E sale in
        let n = pos (q sale) -ℤ pos 1 in
        let (v, e) =
          confirm_takes E (available_key E sale) kr s (pos 0) (pos (q sale)) (meta_key E sale)
            c.reserved_held (omega arith) in
        let s' = (confirm E kr (available_key E sale) (meta_key E sale) s).1 in
        let keep : (k : Text) → k ≢ kr → E.lookup s' k ≡ E.lookup s k =
          λ k h. rw (e, put_ne kr k (str (num n)) (E.lookup s) h) in
        (
          v,
          spread E totals q o (λ b. q b - at_sale sale b) (λ b. o b + at_sale sale b) s s' sale all
              (λ b h. (
                keep (available_key E b) (λ x. reserved_key-ne-available_key E sale b (sym x)),
                keep (reserved_key E b) (λ x. h (reserved_key-injective E b sale x)),
              ))
              (λ b h. (omega (arith, at_other sale b h), omega (arith, at_other sale b h)))
              (record {
                small = c.small;
                within = omega (arith, at_self sale, c.within);
                available_held =
                    ap integer_at (
                      keep (available_key E sale)
                        (λ x. reserved_key-ne-available_key E sale sale (sym x)))
                    ∙ c.available_held
                    ∙ ap some (ap pos (omega (arith, at_self sale, c.within)));
                reserved_held =
                    rw (e, put_self kr (str (num n)) (E.lookup s))
                      (ap some (omega (int_laws, at_self sale)));
              }),
        )

-- ===== src/Waitlist/Sync.antt =====
-- The waitlist's calls leave the counters and the rows as they are.
use flash_sale.Common.{ℕ, refl, sym, Option, some, none, Text, Option-cases, inl, inr, not, ◌==◌}
use flash_sale.Common.Int.{ℤ, eqb_ℤ, negsuc}
use flash_sale.Platform.{Platform}
use flash_sale.Platform.Keyspace.{entries_at}
use flash_sale.Effects.{Error}
use flash_sale.Effects.Keeps.{Keeps, pure-Keeps, fail-Keeps, wrap-Keeps, bind-Keeps, if-Keeps}
use flash_sale.Redis.Script.{zrank, get, zscore, to_number, no_stock}
use flash_sale.Redis.Keys.{available_key, reserved_key, waitlist_key}
use flash_sale.Redis.Apart.{waitlist_key-ne-available_key, waitlist_key-ne-reserved_key}
use flash_sale.Redis.Scripts.{waitlist_join, join_new, rank_reply}
use flash_sale.Redis.Client
use flash_sale.Redis.Promote.{put_entries_ne}
use flash_sale.Redis.Leaves.{Leaves, read-Leaves, bind-Leaves, if-Leaves}
use flash_sale.Reservation.Sync.{sync, redis_call-sync}
use flash_sale.Waitlist.{
  join, get_position, leave, settle_join, settle_rank, zcard, JoinResponse, PositionResponse,
}

module _ (E : Platform) where
  pub zadd-Leaves : (sale sc : ℕ) (m : Text) → Leaves E (E.zadd (waitlist_key E sale) sc m)
  zadd-Leaves sale sc m = record {
    same_at = λ s b. elim (Option-cases (entries_at (E.lookup s (waitlist_key E sale)))) [
      | inl other_type ↦ rw (E.zadd_error (waitlist_key E sale) sc m s other_type) (refl, refl)
      | inr (es, held) ↦ rw (E.lookup-zadd (waitlist_key E sale) sc m s es held) (
        put_entries_ne (waitlist_key E sale) (available_key E b) _ (E.lookup s)
            (λ h. waitlist_key-ne-available_key E sale b (sym h)),
        put_entries_ne (waitlist_key E sale) (reserved_key E b) _ (E.lookup s)
            (λ h. waitlist_key-ne-reserved_key E sale b (sym h)),
      )
    ];
  }

  zrem-Leaves : (sale : ℕ) (m : Text) → Leaves E (E.zrem (waitlist_key E sale) m)
  zrem-Leaves sale m = record {
    same_at = λ s b. elim (Option-cases (entries_at (E.lookup s (waitlist_key E sale)))) [
      | inl other_type ↦ rw (E.zrem_error (waitlist_key E sale) m s other_type) (refl, refl)
      | inr (es, held) ↦ rw (E.lookup-zrem (waitlist_key E sale) m s es held) (
        put_entries_ne (waitlist_key E sale) (available_key E b) _ (E.lookup s)
            (λ h. waitlist_key-ne-available_key E sale b (sym h)),
        put_entries_ne (waitlist_key E sale) (reserved_key E b) _ (E.lookup s)
            (λ h. waitlist_key-ne-reserved_key E sale b (sym h)),
      )
    ];
  }

  rank_reply-Leaves : (r : Option ℕ) → Leaves E (rank_reply E r)
  rank_reply-Leaves none = read-Leaves E _
  rank_reply-Leaves (some r) = read-Leaves E _

  join_new-Leaves :
      (sale t : ℕ) (m : Text) (o : Option ℕ) → Leaves E (join_new E (waitlist_key E sale) m t o)
  join_new-Leaves sale t m (some score) = read-Leaves E _
  join_new-Leaves sale t m none = bind-Leaves E _ _ (zadd-Leaves sale t m) λ _.
      bind-Leaves E (zrank E (waitlist_key E sale) m) _ (read-Leaves E _) (λ r. rank_reply-Leaves r)

  join-Leaves :
      (sale t : ℕ) (m : Text)
      → Leaves E (waitlist_join E (available_key E sale) (waitlist_key E sale) m t)
  unfolding waitlist_join
  join-Leaves sale t m = bind-Leaves E (get E (available_key E sale)) _ (read-Leaves E _) λ v.
      if-Leaves E (not (no_stock (to_number v))) _ _ (read-Leaves E _) (
        bind-Leaves E (zscore E (waitlist_key E sale) m) _ (read-Leaves E _)
          (λ o. join_new-Leaves sale t m o))

module _ (E : Platform) (totals : ℕ → ℕ) where
  settle_join-sync : (t : ℕ) (r : ℤ) → Keeps (sync E totals) (settle_join E t r)
  settle_join-sync t r =
      if-Keeps (sync E totals) (eqb_ℤ r (negsuc 0)) _ _
        (fail-Keeps (sync E totals) JoinResponse Error.stock_available)
        (if-Keeps (sync E totals) (eqb_ℤ r (negsuc 1)) _ _
          (fail-Keeps (sync E totals) JoinResponse Error.already_waiting)
          (pure-Keeps (sync E totals) _))

  pub join-sync : (sale user t : ℕ) → Keeps (sync E totals) (join E sale user t)
  unfolding join Client.waitlist_join
  join-sync sale user t =
      bind-Keeps (sync E totals) _ _
        (wrap-Keeps (sync E totals) _ _
          (redis_call-sync E totals _ (join-Leaves E sale t (E.uuid_string user))))
        (settle_join-sync t)

  settle_rank-sync : (sale : ℕ) (r : Option ℕ) → Keeps (sync E totals) (settle_rank E sale r)
  settle_rank-sync sale none = fail-Keeps (sync E totals) PositionResponse Error.not_waiting
  settle_rank-sync sale (some r) =
      bind-Keeps (sync E totals) _ _
        (wrap-Keeps (sync E totals) _ _
          (redis_call-sync E totals (zcard E (waitlist_key E sale)) (read-Leaves E _)))
        (λ n. pure-Keeps (sync E totals) _)

  pub get_position-sync : (sale user : ℕ) → Keeps (sync E totals) (get_position E sale user)
  unfolding get_position
  get_position-sync sale user =
      bind-Keeps (sync E totals) _ _
        (wrap-Keeps (sync E totals) _ _ (
          redis_call-sync E totals (zrank E (waitlist_key E sale) (E.uuid_string user))
            (read-Leaves E _)))
        (settle_rank-sync sale)

  pub leave-sync : (sale user : ℕ) → Keeps (sync E totals) (leave E sale user)
  unfolding leave
  leave-sync sale user =
      bind-Keeps (sync E totals) _ _
        (wrap-Keeps (sync E totals) _ _
          (redis_call-sync E totals _ (zrem-Leaves E sale (E.uuid_string user))))
        (λ n.
          if-Keeps (sync E totals) (n == 0) _ _
            (fail-Keeps (sync E totals) (Unit {0}) Error.not_waiting)
            (pure-Keeps (sync E totals) tt))

-- ===== src/Waitlist/Position.antt =====
-- What a user who has joined sees: the place in the queue, and its end by leaving.
use flash_sale.Common.{ℕ, ◌+◌, ◌-◌, ◌≤◌, ◌≡◌, refl, ap, ◌∙◌, some, none, [], List, length, arith}
use flash_sale.Common.Int.{ℤ, pos, ◌+ℤ◌, ◌≤ℤ◌, int_laws}
use flash_sale.Platform.{Platform}
use flash_sale.Platform.Keyspace.{Entry, entries_at, insert_entry, remove_member, score_of, rank_of}
use flash_sale.Effects.{World, ok, Error, wrap, pure, redis_call}
use flash_sale.Effects.Steps.{bind-ok, wrap-ok}
use flash_sale.Effects.Calm.{redis_call_calm}
use flash_sale.Redis.Script.{zrank}
use flash_sale.Redis.Keys.{available_key, waitlist_key}
use flash_sale.Redis.Counters.{counter}
use flash_sale.Redis.Promote.{put_entries_self}
use flash_sale.Waitlist.{
  join, get_position, leave, settle_rank, settle_leave, zcard, PositionResponse,
}
use flash_sale.Waitlist.Entries.{remove-insert, length-insert}
use flash_sale.Waitlist.Joining.{join_accepts, newcomer, after_join}

module _ (E : Platform) (sale user : ℕ) (w : World E) (calm : w.faults ≡ []) (es : List Entry)
    (held : entries_at (E.lookup w.redis (waitlist_key E sale)) ≡ some es) where
  position_found :
      (r : ℕ)
      → rank_of (E.uuid_string user) es ≡ some r
      → get_position E sale user w
        ≡ (ok (record { place = pos (r + 1); total_waiting = length es }), record w { faults = [] })
  unfolding get_position
  position_found r found =
      let kw = waitlist_key E sale in
      let w0 : World E = record w { faults = [] } in
      let one_more : pos r +ℤ pos 1 ≡ pos (r + 1) = omega int_laws in
      let ask = redis_call (zrank E kw (E.uuid_string user)) in
      let size = redis_call (zcard E kw) in
      let place : ℤ → PositionResponse = λ p. record { place = p; total_waiting = length es } in
      bind-ok (wrap Error.not_waiting ask) (settle_rank E sale) {a = some r} (
        wrap-ok ask Error.not_waiting
          (redis_call_calm w calm (zrank E kw (E.uuid_string user)) (rw held (ap some found))))
      ∙ bind-ok (wrap Error.size_failed size)
          (λ total. pure (record { place = pos r +ℤ pos 1; total_waiting = total })) {a = length es}
          (wrap-ok size Error.size_failed (redis_call_calm w0 refl (zcard E kw) (rw held)))
      ∙ ap (λ p. (ok (place p), w0)) one_more

  left :
      (rest : List Entry)
      → remove_member (E.uuid_string user) es ≡ rest
      → length es ≡ length rest + 1
      → let (res, w') = leave E sale user w in
        (res ≡ ok tt)
        × (entries_at (E.lookup w'.redis (waitlist_key E sale)) ≡ some rest)
        × (w'.faults ≡ [])
        × (w'.db ≡ w.db)
  unfolding leave
  left rest removed shorter =
      let kw = waitlist_key E sale in
      let m = E.uuid_string user in
      let counted : length es - length (remove_member m es) ≡ 1 = rw removed (omega arith) in
      let call = redis_call (E.zrem kw m) in
      let w1 : World E = record w { redis = (E.zrem kw m w.redis).1; faults = [] } in
      let steps = bind-ok (wrap Error.leave_failed call) (settle_leave E) (
        wrap-ok call Error.leave_failed
          (redis_call_calm w calm (E.zrem kw m) (E.zrem_reply kw m w.redis es held))) in
      rw (steps, counted)
        (
          refl,
          rw (E.lookup-zrem kw m w.redis es held, removed)
              (put_entries_self kw rest (E.lookup w.redis)),
          refl,
          refl,
        )

module _ (E : Platform) (sale user timestamp : ℕ) (w : World E) (a : ℤ) (es : List Entry)
    (calm : w.faults ≡ []) (ha : counter E w.redis (available_key E sale) ≡ some a)
    (none_left : a ≤ℤ pos 0) (held : entries_at (E.lookup w.redis (waitlist_key E sale)) ≡ some es)
    (absent : score_of (E.uuid_string user) es ≡ none) where
  -- A user who is not waiting and joins a sale without stock gets a position from 1 to the new
  -- length of the list, and GetPosition then reports the same position and that length.
  pub join-get_position :
      let (joined, w1) = join E sale user timestamp w in
      let (seen, w2) = get_position E sale user w1 in
      (p : ℕ) × (1 ≤ p)
      × (p ≤ length es + 1)
      × (joined ≡ ok (record { position = pos p; joined_at = timestamp }))
      × (seen ≡ ok (record { place = pos p; total_waiting = length es + 1 }))
  join-get_position =
      let (r, bound, found, e, list) =
        join_accepts E sale user timestamp w a calm ha es none_left held absent in
      let w1 = after_join E sale user timestamp w a calm ha in
      let entry = newcomer E sale user timestamp w a calm ha in
      (
        r + 1,
        omega arith,
        omega arith,
        ap (λ p. p.0) e,
        ap (λ p. (get_position E sale user p.1).0) e
            ∙ ap (λ p. p.0)
                (position_found E sale user w1 refl (insert_entry entry es) list r found)
            ∙ ap (λ n. ok (record { place = pos (r + 1); total_waiting = n }))
                (length-insert entry es),
      )

  -- A user who joins a sale without stock and then leaves is let go, and the list is as it was
  -- before.
  pub leave-join :
      let w1 = (join E sale user timestamp w).1 in
      let (res, w2) = leave E sale user w1 in
      (res ≡ ok tt) × (entries_at (E.lookup w2.redis (waitlist_key E sale)) ≡ some es)
  leave-join =
      let (r, bound, found, e, list) =
        join_accepts E sale user timestamp w a calm ha es none_left held absent in
      let entry = newcomer E sale user timestamp w a calm ha in
      let (res, rest, quiet, rows) =
        left E sale user (after_join E sale user timestamp w a calm ha) refl (insert_entry entry es)
          list es (remove-insert entry es absent) (length-insert entry es) in
      let same_world = ap (λ p. p.1) e in
      (
        ap (λ v. (leave E sale user v).0) same_world ∙ res,
        ap (λ v. entries_at (E.lookup (leave E sale user v).1.redis (waitlist_key E sale)))
              same_world
            ∙ rest,
      )

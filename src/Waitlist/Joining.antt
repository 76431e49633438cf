-- ===== src/Waitlist/Joining.antt =====
-- Join on each of its branches, in a run without network faults.
use flash_sale.Common.{
  ℕ, ◌+◌, ◌≤◌, ◌≡◌, ap, ◌∙◌, Option, some, none, [], List, Text, length, false, arith, Option-cases,
  inl, inr,
}
use flash_sale.Common.Int.{ℤ, pos, negsuc, ◌+ℤ◌, ◌≤ℤ◌, eqb_ℤ, int_laws}
use flash_sale.Platform.{Platform}
use flash_sale.Platform.Keyspace.{Entry, entries_at, insert_entry, score_of, rank_of}
use flash_sale.Effects.{World, ok, err, Error, wrap}
use flash_sale.Effects.Steps.{bind-ok, wrap-ok}
use flash_sale.Effects.Calm.{redis_call_calm}
use flash_sale.Redis.Script
use flash_sale.Redis.Keys.{available_key, waitlist_key}
use flash_sale.Redis.Scripts.{waitlist_join}
use flash_sale.Redis.Client
use flash_sale.Redis.Counters.{counter}
use flash_sale.Redis.Stock.{get_positive, get_spent, some_stock}
use flash_sale.Redis.Promote.{put_entries_self}
use flash_sale.Waitlist.{settle_join, join, JoinResponse}
use flash_sale.Waitlist.Entries.{remove_absent, rank-insert}

not_negative : (r n : ℕ) → eqb_ℤ (pos r) (negsuc n) ≡ false
not_negative r n = ground arith

module _ (E : Platform) (ka kw user : Text) (timestamp : ℕ) (s : E.Store) (a : ℤ)
    (ha : counter E s ka ≡ some a) where
  join_in_stock : pos 1 ≤ℤ a → waitlist_join E ka kw user timestamp s ≡ (some (negsuc 0), s)
  unfolding waitlist_join
  join_in_stock stock = rw (
    get_positive (E.lookup s ka) a ha stock,
    some_stock a stock,
    waitlist_join,
    Script.◌>>=◌,
    Script.◌>>◌,
  )

  module _ (es : List Entry) (none_left : a ≤ℤ pos 0)
      (held : entries_at (E.lookup s kw) ≡ some es) where
    join_again :
        (t : ℕ)
        → score_of user es ≡ some t
        → waitlist_join E ka kw user timestamp s ≡ (some (negsuc 1), s)
    unfolding waitlist_join
    join_again t waiting =
        let (x, e, f) = get_spent (E.lookup s ka) a ha none_left in
        rw (e, f, held, waiting, waitlist_join, Script.◌>>=◌, Script.◌>>◌)

    joined_entries :
        score_of user es ≡ none
        → entries_at (E.lookup (E.zadd kw timestamp user s).1 kw)
          ≡ some (insert_entry (record { member = user; score = timestamp }) es)
    joined_entries absent =
        let e : Entry = record { member = user; score = timestamp } in
        rw (E.lookup-zadd kw timestamp user s es held, remove_absent user es absent)
          (put_entries_self kw (insert_entry e es) (E.lookup s))

    join_fresh :
        score_of user es ≡ none
        → (r : ℕ) × (r ≤ length es)
          × (rank_of user (insert_entry (record { member = user; score = timestamp }) es) ≡ some r)
          × (waitlist_join E ka kw user timestamp s
              ≡ (some (pos r), (E.zadd kw timestamp user s).1))
    unfolding waitlist_join
    join_fresh absent =
        let (x, e, f) = get_spent (E.lookup s ka) a ha none_left in
        let entry : Entry = record { member = user; score = timestamp } in
        let (r, found, bound) = rank-insert entry es in
        elim (Option-cases (E.zadd kw timestamp user s).0) [
          | inl failed ↦ absurd (E.zadd_reply kw timestamp user s es held failed)
          | inr (n, added) ↦ (
            r,
            bound,
            found,
            rw (
              e,
              f,
              held,
              absent,
              added,
              joined_entries absent,
              found,
              waitlist_join,
              Script.◌>>=◌,
              Script.◌>>◌,
            ),
          )
        ]

module _ (E : Platform) (sale user timestamp : ℕ) (w : World E) (a : ℤ) (calm : w.faults ≡ [])
    (ha : counter E w.redis (available_key E sale) ≡ some a) where
  abbrev pub newcomer : Entry
  newcomer = record { member = E.uuid_string user; score = timestamp }

  abbrev pub after_join : World E
  after_join = record w {
    redis = (E.zadd (waitlist_key E sale) timestamp (E.uuid_string user) w.redis).1;
    faults = [];
  }

  script : E.Store → Option ℤ × E.Store
  script =
      waitlist_join E (available_key E sale) (waitlist_key E sale) (E.uuid_string user) timestamp

  answers :
      {v : ℤ} {s' : E.Store}
      → waitlist_join E
          (available_key E sale)
          (waitlist_key E sale)
          (E.uuid_string user)
          timestamp
          w.redis
        ≡ (some v, s')
      → join E sale user timestamp w
        ≡ settle_join E timestamp v (record w { redis = s'; faults = [] })
  unfolding join Client.waitlist_join script
  answers {v} {s'} e =
      let m = Client.waitlist_join E sale user timestamp in
      bind-ok (wrap Error.join_failed m) (settle_join E timestamp)
        (wrap-ok m Error.join_failed (redis_call_calm w calm script (ap (λ p. p.0) e)))
      ∙ ap (λ s. settle_join E timestamp v (record w { redis = s; faults = [] })) (ap (λ p. p.1) e)

  ranked :
      (r : ℕ) (v : World E)
      → settle_join E timestamp (pos r) v
        ≡ (ok (record { position = pos (r + 1); joined_at = timestamp }), v)
  ranked r v =
      let reply : ℤ → JoinResponse = λ p. record { position = p; joined_at = timestamp } in
      let one_more : pos r +ℤ pos 1 ≡ pos (r + 1) = omega int_laws in
      rw (not_negative r 0) (ap (λ p. (ok (reply p), v)) one_more)

  -- A sale with stock refuses to queue anyone.
  pub join_refuses :
      pos 1 ≤ℤ a
      → join E sale user timestamp w ≡ (err Error.stock_available, record w { faults = [] })
  join_refuses stock = answers (
      join_in_stock E (available_key E sale) (waitlist_key E sale) (E.uuid_string user) timestamp
        w.redis a ha stock)

  module _ (es : List Entry) (none_left : a ≤ℤ pos 0)
      (held : entries_at (E.lookup w.redis (waitlist_key E sale)) ≡ some es) where
    pub join_waiting :
        (t : ℕ)
        → score_of (E.uuid_string user) es ≡ some t
        → join E sale user timestamp w ≡ (err Error.already_waiting, record w { faults = [] })
    join_waiting t waiting = answers (
        join_again E (available_key E sale) (waitlist_key E sale) (E.uuid_string user) timestamp
          w.redis a ha es none_left held t waiting)

    pub join_accepts :
        score_of (E.uuid_string user) es ≡ none
        → (r : ℕ) × (r ≤ length es)
          × (rank_of (E.uuid_string user) (insert_entry newcomer es) ≡ some r)
          × (join E sale user timestamp w
              ≡ (ok (record { position = pos (r + 1); joined_at = timestamp }), after_join))
          × (entries_at (E.lookup after_join.redis (waitlist_key E sale))
              ≡ some (insert_entry newcomer es))
    join_accepts absent =
        let ka = available_key E sale in
        let kw = waitlist_key E sale in
        let (r, bound, found, e) =
          join_fresh E ka kw (E.uuid_string user) timestamp w.redis a ha es none_left held absent in
        (
          r,
          bound,
          found,
          answers e ∙ ranked r after_join,
          joined_entries E ka kw (E.uuid_string user) timestamp w.redis a ha es none_left held
              absent,
        )

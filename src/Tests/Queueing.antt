-- ===== src/Tests/Queueing.antt =====
-- The theorems on the scripts and on the waitlist, each at a run.
use flash_sale.Common.{ℕ, ◌≤◌, ◌≡◌, refl, some, [], ◌∷◌, arith}
use flash_sale.Common.Int.{pos}
use flash_sale.Platform.Keyspace.{Entry, entries_at}
use flash_sale.Effects.{World, ok}
use flash_sale.Reference.{memory, empty}
use flash_sale.Redis.Keys.{available_key, waitlist_key, sale_key}
use flash_sale.Waitlist.{join, get_position, leave}
use flash_sale.Waitlist.Position.{join-get_position, leave-join}
use flash_sale.Tests.Scene.{blank}

abbrev first_waiting : Entry
first_waiting = record { member = memory.uuid_string 2; score = 20 }

abbrev queue : World memory
queue = record {
  redis = (memory.zadd (waitlist_key memory 7) 20 (memory.uuid_string 2) empty).1;
  db = blank;
  sent = [];
  faults = [];
}

queue_held :
    entries_at (memory.lookup queue.redis (waitlist_key memory 7)) ≡ some (first_waiting ∷ [])
unfolding waitlist_key sale_key
queue_held = refl

join-get_position_example :
    let (joined, w1) = join memory 7 1 21 queue in
    let (seen, w2) = get_position memory 7 1 w1 in
    (p : ℕ) × (1 ≤ p)
    × (p ≤ 2)
    × (joined ≡ ok (record { position = pos p; joined_at = 21 }))
    × (seen ≡ ok (record { place = pos p; total_waiting = 2 }))
unfolding waitlist_key available_key sale_key
join-get_position_example =
    join-get_position memory 7 1 21 queue (pos 0) (first_waiting ∷ []) refl refl (omega arith)
      queue_held refl

leave-join_example :
    let w1 = (join memory 7 1 21 queue).1 in
    let (res, w2) = leave memory 7 1 w1 in
    (res ≡ ok tt)
    × (entries_at (memory.lookup w2.redis (waitlist_key memory 7)) ≡ some (first_waiting ∷ []))
unfolding waitlist_key available_key sale_key
leave-join_example =
    leave-join memory 7 1 21 queue (pos 0) (first_waiting ∷ []) refl refl (omega arith) queue_held
      refl

-- ===== src/Expiry/Lost.antt =====
-- A promotion whose item does not exist.
use flash_sale.Common.{
  ℕ, ◌+◌, ◌≤◌, ◌<◌, ◌≡◌, refl, ap, ◌∙◌, some, none, [], ◌∷◌, List, Bool, false, ◌&&◌, not, arith,
}
use flash_sale.Platform.{Platform}
use flash_sale.Platform.Keyspace.{Entry, entries_at}
use flash_sale.Database.{
  Tables, ReservationRow, insert_reservation, may_insert_reservation, has_item, is_some,
  find_reservation, has_id, find_sale, valid_confirmation,
}
use flash_sale.Effects.{World, err, Error, attempt, db_exec}
use flash_sale.Effects.Steps.{bind-ok, attempt-err}
use flash_sale.Effects.Calm.{db_exec_failed}
use flash_sale.Redis.Keys.{waitlist_key}
use flash_sale.Redis.Counts.{at_sale, at_self}
use flash_sale.Redis.Moves.{release_keeps_waitlist}
use flash_sale.Redis.Promote.{promote_script, promote-AllCounts}
use flash_sale.Reservation.{Service, new_reservation}
use flash_sale.Reservation.Sync.{InSync, reserved_in, sold_in}
use flash_sale.Reservation.Taken.{Taken, give_back-InSync}
use flash_sale.Expiry.{promoted, settle_promotion, record_promotion, promote_next_user}
use flash_sale.Expiry.Promotion.{promoting, somebody}

and_without : (a b c d e : Bool) → d ≡ false → (a && b && c && d && e) ≡ false
and_without a b c d e h = ground arith

no_item :
    (row : ReservationRow) (t : Tables)
    → has_item row.item_id t.sale_items ≡ false
    → insert_reservation row t ≡ none
unfolding insert_reservation
no_item row t h =
    let refused : may_insert_reservation row t ≡ false =
      and_without (not (is_some (find_reservation row.id t.reservations)))
        (has_id row.user_id t.users) (is_some (find_sale row.sale_id t.sales))
        (has_item row.item_id t.sale_items) (valid_confirmation row) h in
    rw refused

module _ (E : Platform) (totals : ℕ → ℕ) (h : Service) (sale id item now : ℕ) where
  -- A promotion for an item that is not in sale_items, from a state in step, without network
  -- faults, of a sale with a unit left and somebody waiting: it fails, the rows are as they were,
  -- and the user is off the waitlist.
  pub promotion_loses_user :
      (w : World E) (e : Entry) (es : List Entry) (user : ℕ)
      → InSync E totals w
      → reserved_in w.db sale + sold_in w.db sale < totals sale
      → entries_at (E.lookup w.redis (waitlist_key E sale)) ≡ some (e ∷ es)
      → e.member ≡ E.uuid_string user
      → has_item item w.db.sale_items ≡ false
      → let (res, w') = promote_next_user E h sale id item now w in
        (res ≡ err Error.create_reservation_failed)
        × (w'.db ≡ w.db)
        × (entries_at (E.lookup w'.redis (waitlist_key E sale)) ≡ some es)
  unfolding record_promotion
  promotion_loses_user w e es user sync room held printed missing =
      let q = reserved_in w.db in
      let o = sold_in w.db in
      let q' : ℕ → ℕ = λ b. q b + at_sale sale b in
      let one : 1 ≤ q' sale = omega (arith, at_self sale) in
      let (v, counts, list) =
        promote-AllCounts E totals q o w.redis sale sync.counts e es room held in
      let w1 : World E = record w { redis = (promote_script E sale w.redis).1; faults = [] } in
      let row = promoted E (new_reservation E h user sale item id now) in
      let r = new_reservation E h user sale item id now in
      let taken : Taken E totals sale w1 = record {
        calm = refl;
        rows_valid = sync.rows_valid;
        counts = counts;
      } in
      let (back, synced) =
        give_back-InSync E totals sale w1 Error.create_reservation_failed taken in
      let steps =
        promoting E h totals sale id item now w sync.calm v
        ∙ somebody E h totals sale id item now w w1 e.member user printed
        ∙ bind-ok (attempt (db_exec (insert_reservation row))) (settle_promotion E h r) (
            attempt-err (db_exec (insert_reservation row))
              (db_exec_failed w1 refl (insert_reservation row) (no_item row w.db missing)))
        ∙ back in
      rw steps (
        refl,
        refl,
        ap entries_at (release_keeps_waitlist E totals q' o w1.redis sale counts one sale) ∙ list,
      )

-- ===== src/Expiry/Promotion.antt =====
-- promoteNextUser keeps the counters in step with the rows.
use native.Mathlib.Decide.{dec_lt}
use flash_sale.Common.{
  ℕ, ◌+◌, ◌≡◌, refl, sym, ap, subst, ◌∙◌, some, [], ◌∷◌, List, Text, codes, length, false, same,
  same_iff, arith, Option-cases, Bool-cases, inl, inr, ◌<◌,
}
use flash_sale.Platform.{Platform}
use flash_sale.Platform.Keyspace.{Entry, entries_at}
use flash_sale.Models.{Reservation, ReservationStatus}
use flash_sale.Database.{insert_reservation}
use flash_sale.Effects.{World, Error, wrap, attempt, db_exec}
use flash_sale.Effects.Keeps.{Keeps, pure-Keeps, attempt-Keeps, bind-Keeps, then-Keeps, if-Keeps}
use flash_sale.Effects.Steps.{bind-ok, attempt-ok, attempt-err, wrap-ok}
use flash_sale.Effects.Calm.{redis_call_calm, db_exec_done, db_exec_failed}
use flash_sale.Redis.Client
use flash_sale.Redis.Keys.{waitlist_key}
use flash_sale.Redis.Promote.{promote_script, promote_full, promote_unwanted, promote-AllCounts}
use flash_sale.Reservation.{Service, new_reservation}
use flash_sale.Reservation.Quiet.{
  quiet, publish-Quiet, publish_stock-Quiet, stock_count-Quiet, set_ttl-Quiet, write_audit-Quiet,
}
use flash_sale.Reservation.Sync.{InSync, quiet-sync, reserved_in, sold_in}
use flash_sale.Reservation.Taken.{Taken, give_back-InSync, inserted-InSync}
use flash_sale.Expiry.{
  promoted, tell_promoted, announce_promotion, settle_promotion, record_promotion, promote_member,
  promote_next_user,
}

-- The members of a waitlist are printed identifiers, as Join writes them.
abbrev pub AllPrinted : Platform → List Entry → Type 0
AllPrinted E [] = Unit {0}
AllPrinted E (e ∷ es) = ((user : ℕ) × (e.member ≡ E.uuid_string user)) × AllPrinted E es

-- The waitlist of each sale is absent or a sorted set of printed identifiers.
abbrev pub Waitlists : (E : Platform) → E.Store → Type 0
Waitlists E s =
    (b : ℕ)
    → (es : List Entry) × (entries_at (E.lookup s (waitlist_key E b)) ≡ some es) × AllPrinted E es

module _ (E : Platform) (h : Service) where
  tell_promoted-Quiet : (r : Reservation) → Keeps (quiet E) (tell_promoted E h r)
  unfolding tell_promoted
  tell_promoted-Quiet r =
      if-Keeps (quiet E) h.has_publisher _ _
        (then-Keeps (quiet E) _ _ (attempt-Keeps (quiet E) _ (publish-Quiet E _ _)) (
          bind-Keeps (quiet E) _ _ (stock_count-Quiet E r.sale_id)
            λ n. publish_stock-Quiet E h r.sale_id n))
        (pure-Keeps (quiet E) tt)

  announce_promotion-Quiet : (r : Reservation) → Keeps (quiet E) (announce_promotion E h r)
  unfolding announce_promotion
  announce_promotion-Quiet r =
      then-Keeps (quiet E) _ _ (attempt-Keeps (quiet E) _ (set_ttl-Quiet E h.reservation_ttl r.id))
        (then-Keeps (quiet E) _ _ (tell_promoted-Quiet r) (write_audit-Quiet E _ _ _))

  not_nobody :
      (member : Text) (user : ℕ) → member ≡ E.uuid_string user → same member (codes "-1") ≡ false
  not_nobody member user printed = elim (Bool-cases (same member (codes "-1"))) [
    | inl hit ↦
        let e : length member ≡ 2 = ap length ((same_iff member (codes "-1")).0 hit) in
        let f : length member ≡ 36 = ap length printed ∙ E.length-uuid_string user in
        absurd (omega arith)
    | inr miss ↦ miss
  ]

  module _ (totals : ℕ → ℕ) where
    record_promotion-InSync :
        (w : World E) (r : Reservation)
        → r.status ≡ ReservationStatus.reserved
        → Taken E totals r.sale_id w
        → InSync E totals (record_promotion E h r w).1
    unfolding record_promotion
    record_promotion-InSync w r st taken =
        let insert = insert_reservation (promoted E r) in
        elim (Option-cases (insert w.db)) [
          | inl refused ↦
              let w1 : World E = record w { faults = [] } in
              let taken1 : Taken E totals r.sale_id w1 = record {
                calm = refl;
                rows_valid = taken.rows_valid;
                counts = taken.counts;
              } in
              let (back, synced) =
                give_back-InSync E totals r.sale_id w1 Error.create_reservation_failed taken1 in
              subst (λ p. InSync E totals p.1)
                (sym (
                  bind-ok (attempt (db_exec insert)) (settle_promotion E h r)
                    (attempt-err (db_exec insert) (db_exec_failed w taken.calm insert refused))
                  ∙ back))
                synced
          | inr (t, inserted) ↦
              let w1 : World E = record w { db = t; faults = [] } in
              subst (λ p. InSync E totals p.1)
                (sym (
                  bind-ok (attempt (db_exec insert)) (settle_promotion E h r)
                    (attempt-ok (db_exec insert) (db_exec_done w taken.calm insert inserted))))
                ((quiet-sync E totals _ (announce_promotion-Quiet r)).holds w1 (
                  inserted-InSync E totals r.sale_id w (promoted E r) t taken refl (rw st)
                    inserted))
        ]

    module _ (sale id item now : ℕ) where
      -- What follows the answer of the script.
      pub promoting :
          (w : World E) {member : Text}
          → w.faults ≡ []
          → (promote_script E sale w.redis).0 ≡ some member
          → promote_next_user E h sale id item now w
            ≡ promote_member E h sale id item now member
                (record w { redis = (promote_script E sale w.redis).1; faults = [] })
      unfolding promote_next_user Client.waitlist_promote
      promoting w calm e =
          let m = Client.waitlist_promote E sale in
          bind-ok (wrap Error.promote_failed m) (promote_member E h sale id item now)
            (wrap-ok m Error.promote_failed (redis_call_calm w calm (promote_script E sale) e))

      nobody-InSync :
          (w : World E)
          → InSync E totals w
          → promote_script E sale w.redis ≡ (some (codes "-1"), w.redis)
          → InSync E totals (promote_next_user E h sale id item now w).1
      nobody-InSync w sync e =
          let left : InSync E totals (record w { redis = w.redis; faults = [] }) = record {
            calm = refl;
            rows_valid = sync.rows_valid;
            counts = sync.counts;
          } in
          subst (λ p. InSync E totals p.1) (sym (promoting w sync.calm (ap (λ p. p.0) e)))
            (subst (λ s. InSync E totals (record w { redis = s; faults = [] }))
              (sym (ap (λ p. p.1) e)) left)

      pub somebody :
          (w w1 : World E) (member : Text) (user : ℕ)
          → member ≡ E.uuid_string user
          → promote_member E h sale id item now member w1
            ≡ record_promotion E h (new_reservation E h user sale item id now) w1
      somebody w w1 member user printed =
          rw (not_nobody member user printed, printed, E.parse-uuid_string user)

      -- promoteNextUser keeps the counters of every sale in step with the rows, on every branch of
      -- a run without network faults, if the waitlists are sets of printed identifiers.
      pub promote_next_user-InSync :
          (w : World E)
          → InSync E totals w
          → Waitlists E w.redis
          → InSync E totals (promote_next_user E h sale id item now w).1
      promote_next_user-InSync w sync lists =
          let q = reserved_in w.db in
          let o = sold_in w.db in
          elim (dec_lt (q sale + o sale) (totals sale)) [
            | no full ↦ nobody-InSync w sync (
                promote_full E totals q o w.redis sale sync.counts
                  (omega (arith, (sync.counts sale).within)))
            | yes room ↦
                let (es, held, printed) = lists sale in with_room w sync room es held printed
          ]
        where
          with_room :
              (w : World E)
              → InSync E totals w
              → reserved_in w.db sale + sold_in w.db sale < totals sale
              → (es : List Entry) → entries_at (E.lookup w.redis (waitlist_key E sale)) ≡ some es
              → AllPrinted E es
              → InSync E totals (promote_next_user E h sale id item now w).1
          with_room w sync room [] held printed = nobody-InSync w sync (
              promote_unwanted E totals (reserved_in w.db) (sold_in w.db) w.redis sale sync.counts
                room held)
          with_room w sync room (e ∷ es) held ((user, printed), others) =
              let (v, counts, list) =
                promote-AllCounts E totals (reserved_in w.db) (sold_in w.db) w.redis sale
                  sync.counts e es room held in
              let w1 : World E = record w {
                redis = (promote_script E sale w.redis).1;
                faults = [];
              } in
              subst (λ p. InSync E totals p.1)
                (sym (promoting w sync.calm v ∙ somebody w w1 e.member user printed))
                (record_promotion-InSync w1 (new_reservation E h user sale item id now) refl
                  (record { calm = refl; rows_valid = sync.rows_valid; counts = counts }))

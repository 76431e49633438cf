-- ===== src/Reservation/Confirm.antt =====
-- Service.Confirm keeps the counters in step with the rows where the order can be inserted.
use flash_sale.Common.{
  ℕ, ◌≡◌, refl, ◌∙◌, Option, some, none, [], ◌∷◌, List, Text, arith, Option-cases, inl, inr, codes,
}
use flash_sale.Platform.{Platform}
use flash_sale.Models.{Reservation, ReservationStatus, Order, EventType, AuditEntry}
use flash_sale.Database.{
  Tables, ReservationRow, find_reservation, is_some, mark, update_row, set_confirmed, insert_order,
  insert_audit, find_order_by_key,
}
use flash_sale.Effects.{
  World, Action, ok, err, Error, ◌>>=◌, ◌>>◌, wrap, attempt, pure, fail, db_query, begin, tx_exec,
  commit,
}
use flash_sale.Effects.Steps.{bind-ok, bind-err, then-ok, wrap-ok, attempt-ok, attempt-err}
use flash_sale.Effects.Calm.{
  begin_calm, tx_exec_done, tx_exec_failed, commit_calm, db_query_found, db_query_missing,
}
use flash_sale.Redis.Client
use flash_sale.Reservation.{audited}
use flash_sale.Reservation.Confirmation.{
  or_release, or_give_back, confirm_rows, replay_order, order_by_key,
}

abbrev pub confirmed_row : ℕ → ReservationRow → ReservationRow
confirmed_row now = mark ReservationStatus.confirmed (some now)

-- An update at one key loses no row.
pub found-update :
    (now id i : ℕ) (rs rs' : List ReservationRow)
    → update_row (confirmed_row now) id rs ≡ some rs'
    → is_some (find_reservation i rs') ≡ is_some (find_reservation i rs)
found-update now id i [] rs' e = ground arith
found-update now id i (x ∷ rs) rs' e = elim (Option-cases (update_row (confirmed_row now) id rs)) [
  | inl missing ↦ ground arith
  | inr (us, u) ↦ ground (arith, found-update now id i rs us u)
]

module _ (E : Platform) where
  pub or_release-ok :
      {A : Type 0} (error : Error) (sale : ℕ) (m : Action E A) {w w' : World E} {a : A}
      → m w ≡ (ok a, w')
      → or_release E error sale m w ≡ (ok a, w')
  unfolding or_release
  or_release-ok error sale m e = bind-ok (attempt m) (or_give_back E error sale) (attempt-ok m e)

  pub or_release-err :
      {A : Type 0} (error : Error) (sale : ℕ) (m : Action E A) {w w' w'' : World E} {x : Error}
      → m w ≡ (err x, w')
      → Client.release E sale w' ≡ (ok tt, w'')
      → or_release E error sale m w ≡ (err error, w'')
  unfolding or_release
  or_release-err error sale m e back =
      bind-ok (attempt m) (or_give_back E error sale) (attempt-err m e)
      ∙ then-ok (attempt (Client.release E sale)) (fail error)
          (attempt-ok (Client.release E sale) back)

  -- The lookup by idempotency key ends without an error, and changes nothing.
  pub replay_order_calm :
      (key : Text) (w : World E)
      → w.faults ≡ []
      → (o : Option Order) × (replay_order E key w ≡ (ok o, record w { faults = [] }))
  unfolding replay_order order_by_key
  replay_order_calm [] w calm = (none, λ i. (ok none, record w { faults = calm i }))
  replay_order_calm (c ∷ key) w calm =
      let query = λ (t : Tables). find_order_by_key (c ∷ key) t.orders in
      elim (Option-cases (query w.db)) [
        | inl missing ↦ (none, attempt-err (db_query query) (db_query_missing w calm query missing))
        | inr (o, found) ↦ (some o, attempt-ok (db_query query) (db_query_found w calm query found))
      ]

module _ (E : Platform) (r : Reservation) (order : Order) (now : ℕ) where
  abbrev mark_row : Tables → Option Tables
  mark_row = set_confirmed ReservationStatus.confirmed now r.id

  abbrev pub confirm_entry : AuditEntry
  confirm_entry =
      audited E EventType.confirmed r.id ((codes "order_id", E.uuid_string order.id) ∷ [])

  abbrev commit_stage : Tables → Action E Order
  commit_stage logged = do or_release E Error.commit_failed r.sale_id (commit logged); pure order

  abbrev audit_stage : Tables → Action E Order
  audit_stage ordered = do
    logged ←
        or_release E Error.audit_failed r.sale_id (tx_exec (insert_audit confirm_entry) ordered)
    commit_stage logged

  abbrev order_stage : Tables → Action E Order
  order_stage updated = do
    ordered ←
        or_release E Error.create_order_failed r.sale_id (tx_exec (insert_order order) updated)
    audit_stage ordered

  abbrev update_stage : Tables → Action E Order
  update_stage tx = do
    updated ← or_release E Error.update_failed r.sale_id (tx_exec mark_row tx)
    order_stage updated

  -- The transaction as far as the insertion of the order.
  to_order :
      (w : World E) (t : Tables)
      → w.faults ≡ []
      → mark_row w.db ≡ some t
      → confirm_rows E r order now w ≡ order_stage t (record w { faults = [] })
  unfolding confirm_rows
  to_order w t calm marked =
      bind-ok (wrap Error.begin_failed begin) update_stage
        (wrap-ok begin Error.begin_failed (begin_calm w calm))
      ∙ bind-ok (or_release E Error.update_failed r.sale_id (tx_exec mark_row w.db)) order_stage (
          or_release-ok E Error.update_failed r.sale_id (tx_exec mark_row w.db)
            (tx_exec_done (record w { faults = [] }) refl mark_row marked))

  pub confirm_rows_done :
      (w : World E) (t u : Tables)
      → w.faults ≡ []
      → mark_row w.db ≡ some t
      → insert_order order t ≡ some u
      → confirm_rows E r order now w ≡ (
        ok order,
        record w { db = record u { audit_log = confirm_entry ∷ u.audit_log }; faults = [] },
      )
  unfolding insert_audit
  confirm_rows_done w t u calm marked inserted =
      let w0 = record w { faults = [] } in
      let logged = record u { audit_log = confirm_entry ∷ u.audit_log } in
      to_order w t calm marked
      ∙ bind-ok (or_release E Error.create_order_failed r.sale_id (tx_exec (insert_order order) t))
          audit_stage
          (or_release-ok E Error.create_order_failed r.sale_id (tx_exec (insert_order order) t)
            (tx_exec_done w0 refl (insert_order order) inserted))
      ∙ bind-ok (or_release E Error.audit_failed r.sale_id (tx_exec (insert_audit confirm_entry) u))
          commit_stage
          (or_release-ok E Error.audit_failed r.sale_id (tx_exec (insert_audit confirm_entry) u)
            (tx_exec_done w0 refl (insert_audit confirm_entry) refl))
      ∙ then-ok (or_release E Error.commit_failed r.sale_id (commit logged)) (pure order) (
          or_release-ok E Error.commit_failed r.sale_id (commit logged)
            (commit_calm w0 refl logged))

  -- A refused order sends the unit back by `release`, though `confirm` has taken it already.
  pub confirm_rows_refused :
      (w w' : World E) (t : Tables)
      → w.faults ≡ []
      → mark_row w.db ≡ some t
      → insert_order order t ≡ none
      → Client.release E r.sale_id (record w { faults = [] }) ≡ (ok tt, w')
      → confirm_rows E r order now w ≡ (err Error.create_order_failed, w')
  confirm_rows_refused w w' t calm marked refused back =
      to_order w t calm marked
      ∙ bind-err (or_release E Error.create_order_failed r.sale_id (tx_exec (insert_order order) t))
          audit_stage
          (or_release-err E Error.create_order_failed r.sale_id (tx_exec (insert_order order) t)
            (tx_exec_failed (record w { faults = [] }) refl (insert_order order) refused) back)

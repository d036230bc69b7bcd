-- ===== src/Schedule/Store.antt =====
-- scheduleSet (event/schedule.go): the stored schedule is replaced slot by slot.
pub mod Laws
use session_scheduler.Base.{
  ℕ, String, Bool, true, false, ◌||◌, Option, List, [], ◌∷◌, if◌then◌else◌,
}
use session_scheduler.Sql.{first_where}
use session_scheduler.Errors.{message}
use session_scheduler.Tx.{
  Res, ok, err, Tx, Statement, Round, pure, throw, exec, get_row, ◌>>=◌, ◌>>◌, or_retry, tx_loop,
}
use session_scheduler.Db.{Slot, Scheduled, Db}
use session_scheduler.Db.Keys.{is_slot, is_scheduled_at}
use session_scheduler.Db.Tables.{delete_schedule, insert_scheduled, insert_all}
use session_scheduler.Schedule.Place.{PlacedSlot}

-- One `insert` of all the entries of a slot.
abbrev pub done : Res Db → Res (Db × Unit {0})
done (ok db) = ok (db, tt)
done (err e) = err e

unfoldable pub insert_entries : List Scheduled → Statement Db (Unit {0})
insert_entries es db = done (insert_all insert_scheduled es db)

unfoldable pub check_slot_free : Slot → Tx Db (Unit {0})
check_slot_free s =
    if s.is_locked || s.is_break then throw (message "Cannot set schedule for slot") else pure tt

unfoldable pub add_entries : List Scheduled → Tx Db (Unit {0})
unfolding insert_entries
add_entries [] = pure tt
add_entries (e ∷ es) = or_retry "Adding new schedule entries" (exec (insert_entries (e ∷ es)))

unfoldable pub schedule_set_slot : PlacedSlot → Tx Db (Unit {0})
unfolding check_slot_free add_entries
schedule_set_slot p = do
  info ←
      or_retry "Getting slot islocked / isbreak statuses"
        (exec (get_row (λ (db : Db). first_where (is_slot p.slot_id) db.slots)))
  check_slot_free info
  _ ← or_retry "Deleting schedule entries" (exec (delete_schedule (is_scheduled_at p.slot_id)))
  add_entries p.entries

unfoldable pub schedule_set_tx : List PlacedSlot → Tx Db (Unit {0})
unfolding schedule_set_slot
schedule_set_tx [] = pure tt
schedule_set_tx (p ∷ ps) = do schedule_set_slot p; schedule_set_tx ps

unfoldable pub schedule_set : List PlacedSlot → List Round → Db → Option (Res (Unit {0}) × Db)
unfolding schedule_set_tx
schedule_set ps = tx_loop (schedule_set_tx ps)

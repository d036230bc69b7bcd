-- ===== src/Timetable/Days.antt =====
-- Days and slots (event/timetable.go).
-- `slot_id` is the identifier that id.GenerateID draws for the slot of a day at an index. Drawing it
-- anew in each round of `txLoop` makes no difference: a round that is retried leaves nothing.
pub mod Laws
use session_scheduler.Base.{
  ℕ, suc, String, Bool, false, not, ◌&&◌, Option, none, some, List, [], any, map, ltb, leb, ◌==◌,
  nat_key, string_key, if◌then◌else◌,
}
use session_scheduler.Sql.{select, first_where, count_where, max_of, update_where, order_by}
use session_scheduler.Errors.{Error, message, day_no_name, day_not_found}
use session_scheduler.Tx.{
  Res, ok, err, Tx, Fault, Round, pure, throw, exec, query, get_row, update, ◌>>=◌, ◌>>◌, or_retry,
  tx_loop, exec_loop, then_return, expect_one, is_no_rows,
}
use session_scheduler.Db.{Day, Slot, Scheduled, Db}
use session_scheduler.Db.Keys.{is_day, is_slot_at, slot_le}
use session_scheduler.Db.Tables.{
  insert_day, insert_slot, delete_schedule, delete_slots, delete_days,
}
use session_scheduler.Timetable.{TimetableSlot}

unfoldable pub check_day_params : Day → Option Error
check_day_params d = if d.day_name == "" then some day_no_name else none

unfoldable pub get_max_day : Db → ℕ
unfolding max_of
get_max_day db = max_of (λ (d : Day). d.day_id) db.days

unfoldable pub get_max_slot_idx : ℕ → Db → ℕ
unfolding max_of select
get_max_slot_idx did db =
    max_of (λ (s : Slot). s.slot_idx) (select (λ (s : Slot). s.day_id == did) db.slots)

unfoldable pub day_add_tx : Day → Tx Db (Unit {0})
day_add_tx d = or_retry "Inserting day" (exec (insert_day d))

-- The Go code writes the identifier into the day it is given. Go leaves open whether the one that
-- NewDay returns is read before or after that, so the model answers with none.
unfoldable pub new_day_tx : Day → Tx Db (Unit {0})
unfolding get_max_day day_add_tx
new_day_tx d = do
  max_id ← or_retry "Getting  max dayid" (exec (query get_max_day))
  day_add_tx (record d { day_id = suc max_id })

unfoldable pub new_day : Day → List Round → Db → Option (Res (Unit {0}) × Db)
unfolding new_day_tx check_day_params
new_day d rs db = elim (check_day_params d) [
  | some e ↦ some (err e, db)
  | none ↦ tx_loop (new_day_tx d) rs db
]

abbrev pub nil_on_no_rows : Error → Res (Option Day)
nil_on_no_rows e = if is_no_rows e then ok none else err e

unfoldable pub day_find_by_id : ℕ → List (Option Fault) → Db → Option (Res (Option Day) × Db)
unfolding get_row first_where
day_find_by_id did fs db =
    then_return (λ d. ok (some d)) nil_on_no_rows
      (exec_loop (get_row (λ (d : Db). first_where (is_day did) d.days)) fs db)

-- where dayid=? and slotidx >= ?
abbrev pub is_from : ℕ → ℕ → Slot → Bool
is_from did idx s = s.day_id == did && leb idx s.slot_idx

-- slotid in (select slotid from event_slots where dayid=? and slotidx >= ?)
abbrev pub is_in_range : ℕ → ℕ → Db → Scheduled → Bool
is_in_range did idx db e = any (λ (s : Slot). is_from did idx s && s.slot_id == e.slot_id) db.slots

unfoldable pub check_none_locked : ℕ → Tx Db (Unit {0})
check_none_locked n =
    if ltb 0 n then throw (message "Cannot delete slot range, some are locked") else pure tt

unfoldable pub day_slots_delete_tx : ℕ → ℕ → Tx Db (Unit {0})
unfolding check_none_locked count_where
day_slots_delete_tx did idx = do
  locked ← or_retry "Looking for locked slots" (
      exec (
        query (λ (db : Db). count_where (λ (s : Slot). is_from did idx s && s.is_locked) db.slots)))
  check_none_locked locked
  _ ←
      or_retry "Deleting schedule entries for slot range"
        (exec (λ (db : Db). delete_schedule (is_in_range did idx db) db))
  _ ← or_retry "Deleting slots range" (exec (delete_slots (is_from did idx)))
  pure tt

unfoldable pub delete_day_tx : ℕ → Tx Db (Unit {0})
unfolding day_slots_delete_tx
delete_day_tx did = do
  day_slots_delete_tx did 1
  rcount ← or_retry "Deleting day from event_days" (exec (delete_days (is_day did)))
  expect_one day_not_found rcount

unfoldable pub delete_day : ℕ → List Round → Db → Option (Res (Unit {0}) × Db)
unfolding delete_day_tx
delete_day did = tx_loop (delete_day_tx did)

unfoldable pub day_update_tx : Day → Tx Db (Unit {0})
unfolding update_where count_where
day_update_tx d = do
  _ ← exec (
      update
        (λ (db : Db). record db {
          days =
              update_where (is_day d.day_id) (λ (e : Day). record e { day_name = d.day_name })
                db.days;
        })
        (λ (db : Db). count_where (is_day d.day_id) db.days))
  pure tt

unfoldable pub day_update : Day → List Round → Db → Option (Res (Unit {0}) × Db)
unfolding day_update_tx check_day_params
day_update d rs db = elim (check_day_params d) [
  | some e ↦ some (err e, db)
  | none ↦ tx_loop (day_update_tx d) rs db
]

unfoldable pub timetable_slot_add_tx :
    (slot_id : ℕ → ℕ → String) → ℕ → ℕ → TimetableSlot → Tx Db (Unit {0})
timetable_slot_add_tx slot_id did idx slot = or_retry "Inserting new slot" (
    exec (
      insert_slot (record {
        slot_id = slot_id did idx;
        day_id = did;
        slot_idx = idx;
        slot_time = slot.time;
        is_break = slot.is_break;
        is_locked = false;
      })))

abbrev pub with_time : TimetableSlot → Slot → Slot
with_time slot s = record s { slot_time = slot.time; is_break = slot.is_break }

unfoldable pub timetable_slot_update_tx : ℕ → ℕ → TimetableSlot → Tx Db (Unit {0})
unfolding update_where count_where
timetable_slot_update_tx did idx slot = do
  _ ← or_retry "Updating slot" (
      exec (
        update
          (λ (db : Db). record db {
            slots = update_where (is_slot_at did idx) (with_time slot) db.slots;
          })
          (λ (db : Db). count_where (is_slot_at did idx) db.slots)))
  pure tt

-- The slots that may be locked, and which are (TimetableGetLockedSlots, without the times), and
-- TimetableSetLockedSlots.
unfoldable pub locked_slots : Db → List (String × Bool)
unfolding select order_by
locked_slots db =
    map (λ (s : Slot). (s.slot_id, s.is_locked))
      (order_by slot_le (select (λ (s : Slot). not s.is_break) db.slots))

unfoldable pub timetable_get_locked_slots :
    List Round → Db → Option (Res (List (String × Bool)) × Db)
unfolding locked_slots
timetable_get_locked_slots rs db =
    then_return ok (λ _. ok [])
      (tx_loop (or_retry "Getting locked slots" (exec (query locked_slots))) rs db)

abbrev pub lock_if : List String → Slot → Slot
lock_if pslots s = record s { is_locked = any (λ sid. sid == s.slot_id) pslots }

unfoldable pub timetable_set_locked_slots :
    List String → List Round → Db → Option (Res (Unit {0}) × Db)
timetable_set_locked_slots pslots = tx_loop (
    or_retry "Updating locked slots"
      (exec (λ (db : Db). ok (record db { slots = map (lock_if pslots) db.slots }, tt))))

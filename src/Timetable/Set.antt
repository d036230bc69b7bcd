-- ===== src/Timetable/Set.antt =====
-- TimetableSet (event/timetable.go).
use session_scheduler.Base.{
  ℕ, zero, suc, ◌+◌, ◌-◌, String, Bool, false, ◌&&◌, Option, none, some, List, [], ◌∷◌, length, ltb,
  if◌then◌else◌,
}
use session_scheduler.Errors.{message}
use session_scheduler.Tx.{Res, Tx, Round, pure, throw, exec, query, ◌>>=◌, ◌>>◌, or_retry, tx_loop}
use session_scheduler.Db.{Day, Db}
use session_scheduler.Timetable.{TimetableSlot, TimetableDay}
use session_scheduler.Timetable.Days.{
  check_day_params, get_max_day, get_max_slot_idx, day_add_tx, day_slots_delete_tx, delete_day_tx,
  day_update_tx, timetable_slot_add_tx, timetable_slot_update_tx,
}

-- 24 hours in nanoseconds
abbrev pub day_length : ℕ
day_length = 86400000000000

abbrev pub last_time : TimetableSlot → List TimetableSlot → ℕ
last_time s [] = s.time
last_time s (t ∷ ts) = last_time t ts

-- Of two slots the span is not looked at.
unfoldable pub spans_too_long : List TimetableSlot → Bool
spans_too_long [] = false
spans_too_long (s ∷ ss) = ltb 2 (length (s ∷ ss)) && ltb (s.time + day_length) (last_time s ss)

unfoldable pub check_span : List TimetableSlot → Tx Db (Unit {0})
unfolding spans_too_long
check_span slots =
    if spans_too_long slots then throw (message "Slots span more than 24 hours!") else pure tt

unfoldable pub check_day : Day → Tx Db (Unit {0})
unfolding check_day_params
check_day d = elim (check_day_params d) [ some e ↦ throw e | none ↦ pure tt ]

module _ (slot_id : ℕ → ℕ → String) where
  -- The slots of a new day, from the index on.
  unfoldable pub add_slots : ℕ → ℕ → List TimetableSlot → Tx Db (Unit {0})
  unfolding timetable_slot_add_tx
  add_slots did idx [] = pure tt
  add_slots did idx (s ∷ ss) = do
    timetable_slot_add_tx slot_id did idx s
    add_slots did (suc idx) ss

  unfoldable pub timetable_day_add_tx : Day → List TimetableSlot → Tx Db (Unit {0})
  unfolding day_add_tx add_slots
  timetable_day_add_tx d slots = do or_retry "Adding day" (day_add_tx d); add_slots d.day_id 1 slots

  unfoldable pub set_slot : ℕ → ℕ → ℕ → TimetableSlot → Tx Db (Unit {0})
  unfolding timetable_slot_add_tx timetable_slot_update_tx
  set_slot cur_max did i s =
      if ltb i cur_max
      then timetable_slot_update_tx did (suc i) s
      else timetable_slot_add_tx slot_id did (suc i) s

  unfoldable pub set_slots : ℕ → ℕ → ℕ → List TimetableSlot → Tx Db (Unit {0})
  unfolding set_slot
  set_slots cur_max did i [] = pure tt
  set_slots cur_max did i (s ∷ ss) = do set_slot cur_max did i s; set_slots cur_max did (suc i) ss

  -- Remove extraneous slots, if any.
  unfoldable pub cut_slots : ℕ → ℕ → ℕ → Tx Db (Unit {0})
  unfolding day_slots_delete_tx
  cut_slots did cur_max n = if ltb n cur_max then day_slots_delete_tx did (suc n) else pure tt

  unfoldable pub timetable_day_update_tx : Day → List TimetableSlot → Tx Db (Unit {0})
  unfolding day_update_tx get_max_slot_idx cut_slots set_slots
  timetable_day_update_tx d slots = do
    or_retry "Updating day" (day_update_tx d)
    cur_max ← exec (query (get_max_slot_idx d.day_id))
    cut_slots d.day_id cur_max (length slots)
    set_slots cur_max d.day_id 0 slots

  -- `count` days from this one on.
  unfoldable pub delete_days_from : ℕ → ℕ → Tx Db (Unit {0})
  unfolding delete_day_tx
  delete_days_from did zero = pure tt
  delete_days_from did (suc count) = do delete_day_tx did; delete_days_from (suc did) count

  -- Update or add the day.
  unfoldable pub write_day : ℕ → ℕ → Day → List TimetableSlot → Tx Db (Unit {0})
  unfolding timetable_day_add_tx timetable_day_update_tx
  write_day cur_max i d slots =
      if ltb i cur_max then timetable_day_update_tx d slots else timetable_day_add_tx d slots

  unfoldable pub set_day : ℕ → ℕ → TimetableDay → Tx Db (Unit {0})
  unfolding check_day check_span write_day
  set_day cur_max i td = do
    check_day (record { day_id = suc i; day_name = td.day_name })
    check_span td.slots
    write_day cur_max i (record { day_id = suc i; day_name = td.day_name }) td.slots

  unfoldable pub set_days : ℕ → ℕ → List TimetableDay → Tx Db (Unit {0})
  unfolding set_day
  set_days cur_max i [] = pure tt
  set_days cur_max i (td ∷ tds) = do set_day cur_max i td; set_days cur_max (suc i) tds

  unfoldable pub timetable_set_tx : List TimetableDay → Tx Db (Unit {0})
  unfolding get_max_day delete_days_from set_days
  timetable_set_tx tt_days = do
    cur_max ← exec (query get_max_day)
    delete_days_from (suc (length tt_days)) (cur_max - length tt_days)
    set_days (if ltb (length tt_days) cur_max then length tt_days else cur_max) 0 tt_days

  unfoldable pub timetable_set : List TimetableDay → List Round → Db → Option (Res (Unit {0}) × Db)
  unfolding timetable_set_tx
  timetable_set tt_days = tx_loop (timetable_set_tx tt_days)

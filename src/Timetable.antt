-- ===== src/Timetable.antt =====
-- event/timetable.go: the days of the event and the slots of each day.
-- `Day` has the operations on one day and its slots, `Set` the replacement of the timetable.
pub mod Days
pub mod Set
use session_scheduler.Base.{ℕ, String, Bool, List}

-- Of a TimetableSlot, the fields that TimetableSet reads.
pub record TimetableSlot : Type 0 where
  pub time : ℕ
  pub is_break : Bool

pub record TimetableDay : Type 0 where
  pub day_name : String
  pub slots : List TimetableSlot

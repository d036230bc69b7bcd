-- ===== src/Schedule.antt =====
-- event/schedule.go. `Score` has the value of placing a discussion, `Heuristic` the greedy search,
-- `Place` the choice of locations, `Store` the replacement of the stored schedule, `Snapshot` the
-- data that a search starts from.
pub mod Score
pub mod Heuristic
pub mod Place
pub mod Store
pub mod Snapshot
use session_scheduler.Base.{ℕ, String, List}
use session_scheduler.Db.{User}

-- The map PossibleSlots is the list of its keys: only `true` is ever stored in it.
pub record SearchDiscussion : Type 0 where
  pub discussion_id : String
  pub owner : String
  pub possible_slots : List String
  pub user_interest : List (String × ℕ)
  pub max_interest : ℕ

pub record ScheduleSlot : Type 0 where
  pub slot_id : String
  pub discussions : List SearchDiscussion

pub record Schedule : Type 0 where
  pub slots : List ScheduleSlot
  pub unplaced_discussions : List SearchDiscussion

pub record SearchStore : Type 0 where
  pub slots : List String
  pub users : List User
  pub discussions : List SearchDiscussion
  pub locations : List ℕ

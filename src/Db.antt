-- ===== src/Db.antt =====
-- The event database: the structs of the event package, which are the rows of its tables, and the
-- tables with the keys that `initDb` (event/eventdb.go) declares.
-- Identifiers and texts are strings, LocationID and DayID numbers. A time is a number of
-- nanoseconds; a time zone is its name, `none` for a nil *time.Location.
pub mod Tables
pub mod Keys
use session_scheduler.Base.{ℕ, String, Bool, Option, List, []}

pub record User : Type 0 where
  pub user_id : String
  pub hashed_password : String
  pub username : String
  pub is_admin : Bool
  pub is_verified : Bool
  pub location : Option String
  pub real_name : String
  pub email : String
  pub company : String
  pub description : String

pub record Discussion : Type 0 where
  pub discussion_id : String
  pub owner : String
  pub title : String
  pub description : String
  pub approved_title : String
  pub approved_description : String
  pub is_public : Bool

pub record Interest : Type 0 where
  pub user_id : String
  pub discussion_id : String
  pub interest : ℕ

pub record Location : Type 0 where
  pub location_id : ℕ
  pub location_name : String
  pub location_url : String
  pub is_place : Bool
  pub capacity : ℕ

pub record Day : Type 0 where
  pub day_id : ℕ
  pub day_name : String

pub record Slot : Type 0 where
  pub slot_id : String
  pub day_id : ℕ
  pub slot_idx : ℕ
  pub slot_time : ℕ
  pub is_break : Bool
  pub is_locked : Bool

pub record PossibleSlot : Type 0 where
  pub discussion_id : String
  pub slot_id : String

pub record Scheduled : Type 0 where
  pub discussion_id : String
  pub slot_id : String
  pub location_id : ℕ

pub record Db : Type 0 where
  pub users : List User
  pub discussions : List Discussion
  pub interest : List Interest
  pub locations : List Location
  pub days : List Day
  pub slots : List Slot
  pub possible_slots : List PossibleSlot
  pub schedule : List Scheduled

-- The tables as `initDb` creates them.
unfoldable pub empty : Db
empty = record {
  users = [];
  discussions = [];
  interest = [];
  locations = [];
  days = [];
  slots = [];
  possible_slots = [];
  schedule = [];
}

-- ===== src/Examples.antt =====
-- Data for trying the code out: a small event, its users, and a driver with and without faults.
mod Started
mod Stored
mod Loops
mod Planned
mod Arranged
mod Signed
mod Looked
mod Offered
mod Served
mod Registered
use mathlib.Core.List.{Perm}
use mathlib.Core.List.Perm
use session_scheduler.Base.{
  ℕ, String, Bool, true, false, Option, none, some, List, [], ◌∷◌, ◌==◌, ==_refl, subst, string_key,
  some_inj, ==_iff, ◌≢◌, ◌≡◌, refl, arith,
}
use session_scheduler.Tx.{Round, Fault, is_busy, is_locked}
use session_scheduler.Db.{User, Discussion, Interest, Location, Day, Slot, Scheduled, Db}
use session_scheduler.User.{Bcrypt}
use session_scheduler.Schedule.{SearchDiscussion, SearchStore}
use session_scheduler.Schedule.Heuristic.{SliceSort}

abbrev pub quiet : Round
quiet = record { elapsed = 0; begin = none; faults = []; commit = none }

-- The second statement finds the database locked.
abbrev pub contended : Round
contended = record { elapsed = 0; begin = none; faults = none ∷ some is_locked ∷ []; commit = none }

abbrev pub late : Round
late = record { elapsed = 2000000000; begin = some is_busy; faults = []; commit = none }

abbrev pub ann : User
ann = record {
  user_id = "ann";
  hashed_password = "wonder";
  username = "Ann";
  is_admin = false;
  is_verified = true;
  location = some "UTC";
  real_name = "";
  email = "";
  company = "";
  description = "";
}

abbrev pub bob : User
bob = record {
  user_id = "bob";
  hashed_password = "secret";
  username = "Bob";
  is_admin = false;
  is_verified = false;
  location = some "UTC";
  real_name = "";
  email = "";
  company = "";
  description = "";
}

abbrev pub talk : Discussion
talk = record {
  discussion_id = "talk";
  owner = "ann";
  title = "T";
  description = "D";
  approved_title = "T";
  approved_description = "D";
  is_public = true;
}

abbrev pub chat : Discussion
chat = record {
  discussion_id = "chat";
  owner = "bob";
  title = "C";
  description = "E";
  approved_title = "";
  approved_description = "";
  is_public = false;
}

abbrev pub morning : Slot
morning = record {
  slot_id = "morning";
  day_id = 1;
  slot_idx = 1;
  slot_time = 9;
  is_break = false;
  is_locked = true;
}

abbrev pub evening : Slot
evening = record {
  slot_id = "evening";
  day_id = 1;
  slot_idx = 2;
  slot_time = 17;
  is_break = false;
  is_locked = false;
}

abbrev pub entry : Scheduled
entry = record { discussion_id = "talk"; slot_id = "morning"; location_id = 1 }

abbrev pub event : Db
event = record {
  users = ann ∷ bob ∷ [];
  discussions = talk ∷ chat ∷ [];
  interest =
      record { user_id = "bob"; discussion_id = "talk"; interest = 40 }
      ∷ record { user_id = "bob"; discussion_id = "chat"; interest = 100 }
      ∷ [];
  locations =
      record {
        location_id = 1;
        location_name = "Hall";
        location_url = "";
        is_place = true;
        capacity = 9;
      }
      ∷ [];
  days = record { day_id = 1; day_name = "Monday" } ∷ [];
  slots = morning ∷ evening ∷ [];
  possible_slots = [];
  schedule = entry ∷ [];
}

-- To tell texts apart by the test.
pub apart : (s t : String) → (s == t) ≡ false → s ≢ t
apart s t h e = ground (arith, ==_iff s t)

-- A hash that is the password itself.
abbrev pub plain : Bcrypt
plain = record {
  generate = λ salt password. some password;
  compare = λ hash password. hash == password;
  compare_generate =
      λ salt password hash h. subst (λ x. (x == password) ≡ true) (some_inj h) (==_refl password);
}

abbrev pub unsorted : SliceSort
unsorted = record { sort = λ ds. ds; sort_perm = λ ds. Perm.refl ds }

abbrev pub wanted : SearchDiscussion
wanted = record {
  discussion_id = "talk";
  owner = "ann";
  possible_slots = "evening" ∷ [];
  user_interest = ("bob", 40) ∷ [];
  max_interest = 40;
}

abbrev pub rival : SearchDiscussion
rival = record {
  discussion_id = "chat";
  owner = "bob";
  possible_slots = "evening" ∷ "night" ∷ [];
  user_interest = ("bob", 30) ∷ ("ann", 20) ∷ [];
  max_interest = 50;
}

abbrev pub store : SearchStore
store = record {
  slots = "evening" ∷ "night" ∷ [];
  users = ann ∷ bob ∷ [];
  discussions = wanted ∷ rival ∷ [];
  locations = 1 ∷ [];
}

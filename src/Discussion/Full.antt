-- ===== src/Discussion/Full.antt =====
-- The lookup of a discussion with its owner, schedule and slots (event/discussion.go).
-- The slots are read with `q`, which for DiscussionFindByIdFull is the database itself and not the
-- transaction; as the transaction changes nothing, both show the same tables.
pub mod Place
pub mod Slots
pub mod Laws
use mathlib.Core.Option
use session_scheduler.Base.{
  ℕ, ◌+◌, String, Bool, false, Option, none, some, List, [], ◌∷◌, ◌==◌, string_key, if◌then◌else◌,
}
use session_scheduler.Sql.{first_where, select}
use session_scheduler.Errors.{Error, message, err_or_retry}
use session_scheduler.Tx.{
  Res, ok, err, Conn, Fault, Round, exec, exec_loop, get_row, query, then_return, is_no_rows,
}
use session_scheduler.Tx.Variable.{tx_loop_var}
use session_scheduler.Db.{User, Discussion, Interest, Location, Slot, Scheduled, Db}
use session_scheduler.Db.Keys.{is_discussion, is_location, is_slot, is_interest_in}
use session_scheduler.User.Find.{zero_user, user_get_tx}
use session_scheduler.Discussion.Possible.{DisplaySlot, discussion_get_possible_slots_tx}

-- A Time is `none` when it is zero.
pub record DiscussionFull : Type 0 where
  pub discussion : Discussion
  pub owner_info : User
  pub location : Location
  pub time : Option ℕ
  pub is_final : Bool
  pub possible_slots : List DisplaySlot

-- Discussion{}, Location{} and DiscussionFull{}
abbrev pub zero_discussion : Discussion
zero_discussion = record {
  discussion_id = "";
  owner = "";
  title = "";
  description = "";
  approved_title = "";
  approved_description = "";
  is_public = false;
}

abbrev pub zero_location : Location
zero_location = record {
  location_id = 0;
  location_name = "";
  location_url = "";
  is_place = false;
  capacity = 0;
}

abbrev pub zero_full : DiscussionFull
zero_full = record {
  discussion = zero_discussion;
  owner_info = zero_user;
  location = zero_location;
  time = none;
  is_final = false;
  possible_slots = [];
}

pub record ScheduleInfo : Type 0 where
  pub location : Location
  pub slot_time : ℕ
  pub is_locked : Bool

abbrev pub join_info : Option Location → Option Slot → Option ScheduleInfo
join_info (some l) (some s) =
    some (record { location = l; slot_time = s.slot_time; is_locked = s.is_locked })
join_info (some l) none = none
join_info none s = none

abbrev pub first_info : Option ScheduleInfo → Option ScheduleInfo → Option ScheduleInfo
first_info (some i) rest = some i
first_info none rest = rest

abbrev pub join_entry : Db → Scheduled → Option ScheduleInfo
join_entry db e =
    join_info (first_where (is_location e.location_id) db.locations)
      (first_where (is_slot e.slot_id) db.slots)

abbrev pub first_joined : String → Db → List Scheduled → Option ScheduleInfo
first_joined did db [] = none
first_joined did db (e ∷ es) =
    let rest = first_joined did db es in
    if e.discussion_id == did then first_info (join_entry db e) rest else rest

-- from event_locations natural join event_schedule natural join event_slots. Of several rows, which
-- SQL leaves in any order, the first of the schedule's.
unfoldable pub schedule_info : String → Db → Option ScheduleInfo
unfolding first_where
schedule_info did db = first_joined did db db.schedule

-- The variable `disc`, and what the body returns.
abbrev pub Look : Type 0
Look = Option DiscussionFull × (Res (Unit {0}) × Conn Db)

abbrev pub fail_look : DiscussionFull → Error → Conn Db → Look
fail_look df e c = (some df, (err e, c))

abbrev pub use_slots : DiscussionFull → Res (List DisplaySlot) × Conn Db → Look
use_slots df (ok ps, c) = (some (record df { possible_slots = ps }), (ok tt, c))
use_slots df (err e, c) = fail_look df (err_or_retry "Getting possible slots for discussion" e) c

unfoldable pub read_slots : DiscussionFull → Conn Db → Look
unfolding discussion_get_possible_slots_tx
read_slots df c = use_slots df (discussion_get_possible_slots_tx df.discussion.discussion_id c)

abbrev pub use_schedule : DiscussionFull → Res ScheduleInfo × Conn Db → Look
use_schedule df (ok i, c) =
    read_slots
      (record df { location = i.location; time = some i.slot_time; is_final = i.is_locked }) c
use_schedule df (err e, c) =
    let goes_on = read_slots df c in
    if is_no_rows e
    then goes_on
    else fail_look df (err_or_retry "Getting schedule information for discussion" e) c

unfoldable pub read_schedule : DiscussionFull → Conn Db → Look
unfolding schedule_info get_row
read_schedule df c = use_schedule df (exec (get_row (schedule_info df.discussion.discussion_id)) c)

abbrev pub use_owner : DiscussionFull → Res User × Conn Db → Look
use_owner df (ok u, c) = read_schedule (record df { owner_info = u }) c
use_owner df (err e, c) =
    if is_no_rows e
    then fail_look df (message "INTERNAL ERROR: Could not get info for owner") c
    else fail_look df (err_or_retry "Getting discussion owner info" e) c

unfoldable pub read_owner : DiscussionFull → Conn Db → Look
unfolding user_get_tx
read_owner df c = use_owner df (user_get_tx (some zero_user) df.discussion.owner c)

abbrev pub use_discussion : Res Discussion × Conn Db → Look
use_discussion (ok d, c) = read_owner (record zero_full { discussion = d }) c
use_discussion (err e, c) =
    if is_no_rows e
    then (none, (ok tt, c))
    else fail_look zero_full (err_or_retry "Getting discussion data" e) c

-- `disc` is set anew at the start of the body, whatever it was.
unfoldable pub discussion_find_by_id_full_tx : String → Option DiscussionFull → Conn Db → Look
unfolding get_row first_where
discussion_find_by_id_full_tx did disc c =
    use_discussion (exec (get_row (λ (db : Db). first_where (is_discussion did) db.discussions)) c)

unfoldable pub discussion_find_by_id_full :
    String → List Round → Db → Option (Option DiscussionFull × (Res (Unit {0}) × Db))
unfolding discussion_find_by_id_full_tx tx_loop_var
discussion_find_by_id_full did rs db = tx_loop_var (discussion_find_by_id_full_tx did) rs none db

abbrev pub sum_interest : List Interest → ℕ
sum_interest [] = 0
sum_interest (i ∷ is) = i.interest + sum_interest is

-- select IFNULL(sum(interest), 0)
unfoldable pub get_max_score : Discussion → List (Option Fault) → Db → Option (Res ℕ × Db)
unfolding query select
get_max_score d =
    exec_loop
      (query (λ (db : Db). sum_interest (select (is_interest_in d.discussion_id) db.interest)))

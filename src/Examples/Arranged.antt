-- ===== src/Examples/Arranged.antt =====
-- The timetable, the locations, a run of the scheduler, and a history of the small event.
use session_scheduler.Base.{
  ◌≤◌, ◌<◌, ◌≡◌, refl, true, false, [], ◌∷◌, ◌++◌, ◌==◌, string_key, All, none, some,
}
use session_scheduler.Sql.{
  select, delete_where, count_where, first_where, max_of, order_by, insert_ordered,
}
use session_scheduler.Errors.{
  should_retry, err_or_retry, all_whitespace, all_whitespace_codes, codes, is_space,
}
use session_scheduler.Tx.{
  ok, tx_loop, tx_loop_from, tx_round, exec, ◌>>=◌, ◌>>◌, or_retry, pure, throw, get_row, query,
  expect_one,
}
use session_scheduler.Db.{Discussion, Location, Db, empty}
use session_scheduler.Db.Keys.{is_day, is_scheduled_at}
use session_scheduler.Db.Tables.{
  insert_location, insert_discussion, upsert_interest, insert_scheduled, delete_schedule,
  delete_slots, delete_days,
}
use session_scheduler.User.Interest.{set_interest_tx}
use session_scheduler.Discussion.Create.{
  check_discussion_params, check_discussion_limit, user_is_verified, new_discussion_tx,
  new_discussion,
}
use session_scheduler.Discussion.Moderation.{
  IsModerated, here, next, create, elsewhere, Reach-IsModerated,
}
use session_scheduler.Location.{check_location_params, new_location_tx, new_location}
use session_scheduler.Location.{
  delete_location, delete_location_from, delete_location_round, delete_location_statement,
}
use session_scheduler.Location.Deletion.{EitherWay, without_location, delete_location-EitherWay}
use session_scheduler.Db.Tables.{delete_locations}
use session_scheduler.Errors.{location_not_found}
use session_scheduler.Tx.{Round, err, is_busy}
use session_scheduler.Location.Laws.{new_location_adds}
use session_scheduler.Timetable.Days.{
  check_none_locked, day_slots_delete_tx, delete_day_tx, delete_day,
}
use session_scheduler.Timetable.Days.Laws.{is_locked_from, without_slots, delete_day_exact}
use session_scheduler.Schedule.Score.{
  max_interest_of, set_max_interest, add_interest, add_discussion_interest, add_all_interest, total,
  score_slot_delta,
}
use session_scheduler.Schedule.Heuristic.{
  schedule_make_empty, is_open, slot_value, consider, find_best, put_in, place_at, place_one,
  place_all, make_schedule_heuristic,
}
use session_scheduler.Schedule.Place.{set_locations, place_slots, place_discussions}
use session_scheduler.Schedule.Store.{
  schedule_set, schedule_set_tx, schedule_set_slot, check_slot_free, add_entries, insert_entries,
}
use session_scheduler.Schedule.Snapshot.{
  schedulable_slots, free_rows, join_discussions, unlocked_discussions, possible_unlocked_slots,
  check_restriction, search_slots, discussion_interest, search_discussion, search_discussions,
  check_all_public, check_some_slots, make_snapshot_tx, make_snapshot, store_schedule,
  make_schedule,
}
use session_scheduler.Schedule.Snapshot.Laws.{make_schedule_keeps_locked}
use session_scheduler.Examples.{
  quiet, contended, event, ann, bob, chat, talk, morning, entry, unsorted,
}

abbrev monday_free : Db
monday_free = record event { slots = record morning { is_locked = false } ∷ [] }

delete_day_exact_example :
    (count_where (is_day 1) monday_free.days ≡ 1)
    × (count_where (is_locked_from 1 1) monday_free.slots ≡ 0)
    × (record monday_free { schedule = []; slots = []; days = [] }
        ≡ record (without_slots 1 1 monday_free) {
          days = delete_where (is_day 1) monday_free.days;
        })
unfolding delete_day delete_day_tx day_slots_delete_tx check_none_locked delete_schedule
    delete_slots delete_days tx_loop tx_loop_from tx_round exec ◌>>=◌ ◌>>◌ or_retry pure query
    expect_one should_retry err_or_retry count_where delete_where select
delete_day_exact_example =
    delete_day_exact 1 (contended ∷ quiet ∷ []) monday_free
      (record monday_free { schedule = []; slots = []; days = [] }) refl

abbrev attic : Location
attic = record {
  location_id = 0;
  location_name = "Attic";
  location_url = "";
  is_place = true;
  capacity = 3;
}

new_location_adds_example :
    ((attic.location_name == "") ≡ false)
    × (1 ≤ 3)
    × All (λ m. m.location_id < 2) event.locations
    × (record event { locations = event.locations ++ record attic { location_id = 2 } ∷ [] }
        ≡ record event { locations = event.locations ++ record attic { location_id = 2 } ∷ [] })
unfolding check_location_params new_location new_location_tx max_of insert_location tx_loop
    tx_loop_from tx_round exec ◌>>=◌ or_retry pure query should_retry err_or_retry
new_location_adds_example =
    new_location_adds attic 2 (contended ∷ quiet ∷ []) event
      (record event { locations = event.locations ++ record attic { location_id = 2 } ∷ [] }) refl

abbrev registered : Db
registered = record empty { users = ann ∷ bob ∷ [] }

abbrev plan : Discussion
plan = record {
  discussion_id = "";
  owner = "bob";
  title = "P";
  description = "Q";
  approved_title = "";
  approved_description = "";
  is_public = true;
}

abbrev proposed : Db
proposed = record registered {
  discussions = record plan { discussion_id = "plan"; is_public = false } ∷ [];
  interest = record { user_id = "bob"; discussion_id = "plan"; interest = 100 } ∷ [];
}

Reach-IsModerated_example : IsModerated proposed
unfolding empty check_discussion_params all_whitespace all_whitespace_codes codes is_space
    new_discussion new_discussion_tx check_discussion_limit user_is_verified set_interest_tx
    insert_discussion upsert_interest tx_loop tx_loop_from tx_round exec ◌>>=◌ ◌>>◌ or_retry pure
    query get_row should_retry err_or_retry first_where count_where select
Reach-IsModerated_example = Reach-IsModerated proposed (
    next (next {db' = registered} here (elsewhere refl)) (
      create "plan" plan (contended ∷ quiet ∷ [])
        (ok (record plan { discussion_id = "plan"; is_public = false })) refl))

-- Both talks are public; one is fixed in the locked morning.
abbrev approved : Db
approved = record event {
  discussions =
      talk
      ∷ record chat { is_public = true; approved_title = "C"; approved_description = "E" }
      ∷ [];
}

abbrev scheduled : Db
scheduled = record approved {
  schedule = entry ∷ record { discussion_id = "chat"; slot_id = "evening"; location_id = 1 } ∷ [];
}

make_schedule_keeps_locked_example :
    (select (is_scheduled_at "morning") scheduled.schedule
      ≡ select (is_scheduled_at "morning") approved.schedule)
    × (scheduled ≡ record approved { schedule = scheduled.schedule })
unfolding make_schedule make_snapshot make_snapshot_tx check_all_public check_some_slots
    schedulable_slots unlocked_discussions join_discussions free_rows search_discussions
    search_discussion search_slots check_restriction possible_unlocked_slots discussion_interest
    store_schedule make_schedule_heuristic schedule_make_empty place_all place_one place_at put_in
    find_best consider is_open slot_value score_slot_delta add_all_interest add_discussion_interest
    add_interest set_max_interest max_interest_of total place_discussions place_slots set_locations
    schedule_set schedule_set_tx schedule_set_slot check_slot_free add_entries insert_entries
    insert_scheduled delete_schedule order_by insert_ordered tx_loop tx_loop_from tx_round exec
    ◌>>=◌ ◌>>◌ or_retry pure throw query get_row should_retry err_or_retry first_where count_where
    delete_where select
make_schedule_keeps_locked_example =
    make_schedule_keeps_locked (λ x y. true) unsorted morning (quiet ∷ []) (contended ∷ quiet ∷ [])
      approved scheduled refl refl refl

abbrev unscheduled : Db
unscheduled = record event { schedule = [] }

abbrev busy_commit : Round
busy_commit = record { elapsed = 0; begin = none; faults = []; commit = some is_busy }

-- The commit finds the database busy; the second try finds no location to delete.
delete_location-EitherWay_example : EitherWay 1 unscheduled (without_location 1 unscheduled)
unfolding delete_location delete_location_from delete_location_round delete_location_statement
    delete_locations should_retry err_or_retry delete_where select
delete_location-EitherWay_example =
    delete_location-EitherWay 1 (busy_commit ∷ quiet ∷ []) unscheduled
      (err location_not_found, without_location 1 unscheduled) refl

-- ===== src/Schedule/Snapshot.antt =====
-- makeSnapshot and MakeSchedule (event/schedule.go).
-- `text_le` is SQLite's order on text, for `order by discussionid` and `order by userid`.
pub mod Laws
use session_scheduler.Base.{
  ℕ, String, Bool, true, not, ◌&&◌, Option, none, some, List, [], ◌∷◌, ◌++◌, map, any, ◌==◌,
  nat_key, string_key, if◌then◌else◌,
}
use session_scheduler.Sql.{select, first_where, count_where, order_by}
use session_scheduler.Errors.{message}
use session_scheduler.Tx.{
  Res, ok, err, Tx, Round, pure, throw, exec, query, ◌>>=◌, ◌>>◌, or_retry, tx_loop,
}
use session_scheduler.Db.{User, Discussion, Location, Slot, Interest, PossibleSlot, Scheduled, Db}
use session_scheduler.Db.Keys.{
  is_slot, is_scheduled, is_possible_for, is_interest_in, slot_le, is_unlocked,
}
use session_scheduler.Schedule.{SearchDiscussion, Schedule, SearchStore}
use session_scheduler.Schedule.Score.{total}
use session_scheduler.Schedule.Heuristic.{SliceSort, make_schedule_heuristic}
use session_scheduler.Schedule.Place.{place_discussions}
use session_scheduler.Schedule.Store.{schedule_set}

abbrev pub slot_ids : List Slot → List String
slot_ids = map (λ (s : Slot). s.slot_id)

-- select slotid from event_slots where isbreak == false and islocked == false order by ...
unfoldable pub schedulable_slots : Db → List String
unfolding select order_by
schedulable_slots db = slot_ids (order_by slot_le (select is_unlocked db.slots))

-- ifnull(islocked, false) = false, for the slot of a schedule entry
abbrev pub is_free_entry : Db → Scheduled → Bool
is_free_entry db e = elim (first_where (is_slot e.slot_id) db.slots) [
  | none ↦ true
  | some s ↦ not s.is_locked
]

-- The rows that a discussion has in the join: one without schedule entries, else one for each.
unfoldable pub free_rows : Db → Discussion → List Scheduled → List (String × String)
free_rows db d [] = (d.discussion_id, d.owner) ∷ []
free_rows db d (e ∷ es) = map (λ _. (d.discussion_id, d.owner)) (select (is_free_entry db) (e ∷ es))

unfoldable pub join_discussions : Db → List Discussion → List (String × String)
unfolding select free_rows
join_discussions db [] = []
join_discussions db (d ∷ ds) =
    free_rows db d (select (is_scheduled d.discussion_id) db.schedule) ++ join_discussions db ds

-- Discussions not scheduled to locked slots.
unfoldable pub unlocked_discussions : (String → String → Bool) → Db → List (String × String)
unfolding join_discussions order_by
unlocked_discussions text_le db =
    order_by (λ (x : String × String) (y : String × String). text_le x.0 y.0)
      (join_discussions db db.discussions)

abbrev pub is_possible : Db → String → Slot → Bool
is_possible db did s =
    any (λ (p : PossibleSlot). p.discussion_id == did && p.slot_id == s.slot_id) db.possible_slots

-- select slotid from event_discussions_possible_slots natural join event_slots where ...
unfoldable pub possible_unlocked_slots : String → Db → List String
unfolding select order_by
possible_unlocked_slots did db =
    slot_ids (order_by slot_le (select (λ s. is_possible db did s && is_unlocked s) db.slots))

unfoldable pub check_restriction : List String → Tx Db (List String)
check_restriction [] = throw (message "Unscheduled discussion restricted to locked slots")
check_restriction (s ∷ ss) = pure (s ∷ ss)

-- Unlocked slots into which the discussion can be scheduled; with no restriction, all of them.
unfoldable pub search_slots : List String → String → ℕ → Tx Db (List String)
unfolding check_restriction possible_unlocked_slots
search_slots slots did count = if count == 0 then pure slots else do
  pslots ← or_retry "Getting possible unlocked slots" (exec (query (possible_unlocked_slots did)))
  check_restriction pslots

unfoldable pub discussion_interest : String → Db → List (String × ℕ)
unfolding select
discussion_interest did db =
    map (λ (i : Interest). (i.user_id, i.interest)) (select (is_interest_in did) db.interest)

unfoldable pub search_discussion : List String → String × String → Tx Db SearchDiscussion
unfolding search_slots discussion_interest count_where
search_discussion slots (did, owner) = do
  count ←
      or_retry "Getting possible slot count"
        (exec (query (λ (db : Db). count_where (is_possible_for did) db.possible_slots)))
  pslots ← search_slots slots did count
  interest ←
      or_retry "Error getting interest for discussion" (exec (query (discussion_interest did)))
  pure (record {
    discussion_id = did;
    owner = owner;
    possible_slots = pslots;
    user_interest = interest;
    max_interest = total interest;
  })

unfoldable pub search_discussions :
    List String → List (String × String) → Tx Db (List SearchDiscussion)
unfolding search_discussion
search_discussions slots [] = pure []
search_discussions slots (x ∷ xs) = do
  d ← search_discussion slots x
  ds ← search_discussions slots xs
  pure (d ∷ ds)

unfoldable pub check_all_public : ℕ → Tx Db (Unit {0})
check_all_public n =
    if n == 0 then pure tt else throw (message "Cannot run scheduler with non-public discussions")

unfoldable pub check_some_slots : List String → Tx Db (Unit {0})
check_some_slots [] = throw (message "No schedulable slots found!")
check_some_slots (s ∷ ss) = pure tt

unfoldable pub make_snapshot_tx : (String → String → Bool) → Tx Db SearchStore
unfolding check_all_public check_some_slots schedulable_slots unlocked_discussions
    search_discussions order_by
make_snapshot_tx text_le = do
  dcount ←
      or_retry "Getting non-public discussion count" (
        exec
          (query (λ (db : Db). count_where (λ (d : Discussion). not d.is_public) db.discussions)))
  check_all_public dcount
  slots ← or_retry "Getting schedule-able slots" (exec (query schedulable_slots))
  check_some_slots slots
  users ← exec (
      query (λ (db : Db). order_by (λ (u : User) (v : User). text_le u.user_id v.user_id) db.users))
  locations ←
      or_retry "Getting locations"
        (exec (query (λ (db : Db). map (λ (l : Location). l.location_id) db.locations)))
  discussions ←
      or_retry "Getting unlocked discussions" (exec (query (unlocked_discussions text_le)))
  found ← search_discussions slots discussions
  pure (record { slots = slots; users = users; discussions = found; locations = locations })

unfoldable pub make_snapshot :
    (String → String → Bool) → List Round → Db → Option (Res SearchStore × Db)
unfolding make_snapshot_tx
make_snapshot text_le = tx_loop (make_snapshot_tx text_le)

unfoldable pub store_schedule :
    SearchStore → Schedule → List Round → Db → Option (Res (Unit {0}) × Db)
unfolding place_discussions schedule_set
store_schedule ss sched rs db = elim (place_discussions ss sched) [
  | ok placed ↦ schedule_set placed rs db
  | err e ↦ some (err e, db)
]

-- The rounds of the two transactions are given apart.
unfoldable pub make_schedule :
    (String → String → Bool)
    → SliceSort
    → (reading writing : List Round) → Db
    → Option (Res (Unit {0}) × Db)
unfolding make_snapshot make_schedule_heuristic store_schedule
make_schedule text_le sorter reading writing db = elim (make_snapshot text_le reading db) [
  | none ↦ none
  | some (err e, db') ↦ some (err e, db')
  | some (ok ss, db') ↦ store_schedule ss (make_schedule_heuristic sorter ss) writing db'
]

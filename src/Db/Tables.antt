-- ===== src/Db/Tables.antt =====
-- Insertions into the tables, and deletions from those that others refer to, with the constraints
-- that `initDb` (event/eventdb.go) declares on them. A statement that would break a constraint
-- fails and changes nothing. Rows go to the end of their table.
use session_scheduler.Base.{
  ℕ, String, Bool, not, ◌&&◌, List, [], ◌∷◌, ◌++◌, any, length, ◌==◌, nat_key, string_key,
  if◌then◌else◌,
}
use session_scheduler.Sql.{select, delete_where, update_where}
use session_scheduler.Errors.{
  sqlite, constraint_unique, constraint_primary_key, constraint_foreign_key,
}
use session_scheduler.Tx.{Res, ok, err, Statement}
use session_scheduler.Db.{
  User, Discussion, Interest, Location, Day, Slot, PossibleSlot, Scheduled, Db,
}
use session_scheduler.Db.Keys.{
  is_interest, is_slot_at, has_user, has_discussion, has_location, has_day, has_slot,
  user_referenced, discussion_referenced, slot_referenced, location_referenced, day_referenced,
}

unfoldable pub insert_user : User → Statement Db (Unit {0})
insert_user u db =
    if has_user u.user_id db
    then err (sqlite constraint_primary_key)
    else if any (λ (v : User). v.username == u.username) db.users
    then err (sqlite constraint_unique)
    else ok (record db { users = db.users ++ u ∷ [] }, tt)

-- Another discussion has this title.
abbrev pub title_taken : String → String → Db → Bool
title_taken did title db =
    any (λ (d : Discussion). not (d.discussion_id == did) && d.title == title) db.discussions

unfoldable pub insert_discussion : Discussion → Statement Db (Unit {0})
insert_discussion d db =
    if has_discussion d.discussion_id db
    then err (sqlite constraint_primary_key)
    else if title_taken d.discussion_id d.title db
    then err (sqlite constraint_unique)
    else if has_user d.owner db
    then ok (record db { discussions = db.discussions ++ d ∷ [] }, tt)
    else err (sqlite constraint_foreign_key)

-- on conflict(userid, discussionid) do update set interest=:interest
unfoldable pub upsert_interest : Interest → Statement Db (Unit {0})
unfolding update_where
upsert_interest i db =
    if any (is_interest i.user_id i.discussion_id) db.interest
    then ok (
      record db {
        interest =
            update_where (is_interest i.user_id i.discussion_id)
              (λ j. record j { interest = i.interest }) db.interest;
      },
      tt,
    )
    else if has_user i.user_id db && has_discussion i.discussion_id db
    then ok (record db { interest = db.interest ++ i ∷ [] }, tt)
    else err (sqlite constraint_foreign_key)

unfoldable pub insert_location : Location → Statement Db (Unit {0})
insert_location l db =
    if has_location l.location_id db
    then err (sqlite constraint_primary_key)
    else ok (record db { locations = db.locations ++ l ∷ [] }, tt)

unfoldable pub insert_day : Day → Statement Db (Unit {0})
insert_day d db =
    if has_day d.day_id db
    then err (sqlite constraint_primary_key)
    else ok (record db { days = db.days ++ d ∷ [] }, tt)

unfoldable pub insert_slot : Slot → Statement Db (Unit {0})
insert_slot s db =
    if has_slot s.slot_id db
    then err (sqlite constraint_primary_key)
    else if any (is_slot_at s.day_id s.slot_idx) db.slots
    then err (sqlite constraint_unique)
    else if has_day s.day_id db
    then ok (record db { slots = db.slots ++ s ∷ [] }, tt)
    else err (sqlite constraint_foreign_key)

unfoldable pub insert_possible_slot : PossibleSlot → Db → Res Db
insert_possible_slot p db =
    if any (λ (q : PossibleSlot). q.discussion_id == p.discussion_id && q.slot_id == p.slot_id)
      db.possible_slots
    then err (sqlite constraint_unique)
    else if has_discussion p.discussion_id db && has_slot p.slot_id db
    then ok (record db { possible_slots = db.possible_slots ++ p ∷ [] })
    else err (sqlite constraint_foreign_key)

unfoldable pub insert_scheduled : Scheduled → Db → Res Db
insert_scheduled e db =
    if any (λ (f : Scheduled). f.slot_id == e.slot_id && f.location_id == e.location_id) db.schedule
    then err (sqlite constraint_unique)
    else if has_discussion e.discussion_id db
        && has_slot e.slot_id db
        && has_location e.location_id db
    then ok (record db { schedule = db.schedule ++ e ∷ [] })
    else err (sqlite constraint_foreign_key)

-- One `insert` of many rows: sqlx.NamedExec over a slice.
abbrev pub insert_all : {A : Type 0} → (A → Db → Res Db) → List A → Db → Res Db
insert_all insert [] db = ok db
insert_all insert (x ∷ xs) db = elim (insert x db) [
  | ok db' ↦ insert_all insert xs db'
  | err e ↦ err e
]

-- Deletions answer with the number of rows deleted.
unfoldable pub delete_interest : (Interest → Bool) → Statement Db ℕ
unfolding select delete_where
delete_interest p db =
    ok (record db { interest = delete_where p db.interest }, length (select p db.interest))

unfoldable pub delete_possible_slots : (PossibleSlot → Bool) → Statement Db ℕ
unfolding select delete_where
delete_possible_slots p db = ok (
  record db { possible_slots = delete_where p db.possible_slots },
  length (select p db.possible_slots),
)

unfoldable pub delete_schedule : (Scheduled → Bool) → Statement Db ℕ
unfolding select delete_where
delete_schedule p db =
    ok (record db { schedule = delete_where p db.schedule }, length (select p db.schedule))

unfoldable pub delete_users : (User → Bool) → Statement Db ℕ
unfolding select delete_where
delete_users p db =
    if any (user_referenced db) (select p db.users)
    then err (sqlite constraint_foreign_key)
    else ok (record db { users = delete_where p db.users }, length (select p db.users))

unfoldable pub delete_discussions : (Discussion → Bool) → Statement Db ℕ
unfolding select delete_where
delete_discussions p db =
    if any (discussion_referenced db) (select p db.discussions)
    then err (sqlite constraint_foreign_key)
    else ok (
      record db { discussions = delete_where p db.discussions },
      length (select p db.discussions),
    )

unfoldable pub delete_locations : (Location → Bool) → Statement Db ℕ
unfolding select delete_where
delete_locations p db =
    if any (location_referenced db) (select p db.locations)
    then err (sqlite constraint_foreign_key)
    else ok (record db { locations = delete_where p db.locations }, length (select p db.locations))

unfoldable pub delete_days : (Day → Bool) → Statement Db ℕ
unfolding select delete_where
delete_days p db =
    if any (day_referenced db) (select p db.days)
    then err (sqlite constraint_foreign_key)
    else ok (record db { days = delete_where p db.days }, length (select p db.days))

unfoldable pub delete_slots : (Slot → Bool) → Statement Db ℕ
unfolding select delete_where
delete_slots p db =
    if any (slot_referenced db) (select p db.slots)
    then err (sqlite constraint_foreign_key)
    else ok (record db { slots = delete_where p db.slots }, length (select p db.slots))

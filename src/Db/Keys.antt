-- ===== src/Db/Keys.antt =====
-- The rows that a key stands for: the tests in the `where` clauses and in the foreign keys.
use session_scheduler.Base.{
  ℕ, String, Bool, true, false, not, ◌&&◌, ◌||◌, List, [], ◌∷◌, any, ltb, leb, ◌==◌, nat_key,
  string_key, if◌then◌else◌,
}
use session_scheduler.Errors.{codes}
use session_scheduler.Db.{
  User, Discussion, Interest, Location, Day, Slot, PossibleSlot, Scheduled, Db,
}

abbrev pub is_user : String → User → Bool
is_user uid u = u.user_id == uid

abbrev pub is_discussion : String → Discussion → Bool
is_discussion did d = d.discussion_id == did

abbrev pub is_owned_by : String → Discussion → Bool
is_owned_by uid d = d.owner == uid

abbrev pub is_interest_of : String → Interest → Bool
is_interest_of uid i = i.user_id == uid

abbrev pub is_interest_in : String → Interest → Bool
is_interest_in did i = i.discussion_id == did

abbrev pub is_interest : String → String → Interest → Bool
is_interest uid did i = i.user_id == uid && i.discussion_id == did

abbrev pub is_location : ℕ → Location → Bool
is_location lid l = l.location_id == lid

abbrev pub is_day : ℕ → Day → Bool
is_day did d = d.day_id == did

abbrev pub is_slot : String → Slot → Bool
is_slot sid s = s.slot_id == sid

abbrev pub is_slot_at : ℕ → ℕ → Slot → Bool
is_slot_at did idx s = s.day_id == did && s.slot_idx == idx

abbrev pub is_possible_for : String → PossibleSlot → Bool
is_possible_for did p = p.discussion_id == did

abbrev pub is_possible_at : String → PossibleSlot → Bool
is_possible_at sid p = p.slot_id == sid

abbrev pub is_scheduled : String → Scheduled → Bool
is_scheduled did e = e.discussion_id == did

abbrev pub is_scheduled_at : String → Scheduled → Bool
is_scheduled_at sid e = e.slot_id == sid

abbrev pub is_scheduled_in : ℕ → Scheduled → Bool
is_scheduled_in lid e = e.location_id == lid

-- references event_users(userid) and so on
abbrev pub has_user : String → Db → Bool
has_user uid db = any (is_user uid) db.users

abbrev pub has_discussion : String → Db → Bool
has_discussion did db = any (is_discussion did) db.discussions

abbrev pub has_location : ℕ → Db → Bool
has_location lid db = any (is_location lid) db.locations

abbrev pub has_day : ℕ → Db → Bool
has_day did db = any (is_day did) db.days

abbrev pub has_slot : String → Db → Bool
has_slot sid db = any (is_slot sid) db.slots

-- Is the row referred to by a foreign key of another table?
abbrev pub user_referenced : Db → User → Bool
user_referenced db u =
    any (is_owned_by u.user_id) db.discussions || any (is_interest_of u.user_id) db.interest

abbrev pub discussion_referenced : Db → Discussion → Bool
discussion_referenced db d =
    any (is_interest_in d.discussion_id) db.interest
    || any (is_possible_for d.discussion_id) db.possible_slots
    || any (is_scheduled d.discussion_id) db.schedule

abbrev pub slot_referenced : Db → Slot → Bool
slot_referenced db s =
    any (is_possible_at s.slot_id) db.possible_slots || any (is_scheduled_at s.slot_id) db.schedule

abbrev pub location_referenced : Db → Location → Bool
location_referenced db l = any (is_scheduled_in l.location_id) db.schedule

abbrev pub day_referenced : Db → Day → Bool
day_referenced db d = any (λ (s : Slot). s.day_id == d.day_id) db.slots

-- SQLite compares texts by their bytes; in UTF-8 that is the order of the code points.
unfoldable pub codes_le : List ℕ → List ℕ → Bool
codes_le [] ys = true
codes_le (a ∷ xs) [] = false
codes_le (a ∷ xs) (b ∷ ys) = let rest = codes_le xs ys in if a == b then rest else ltb a b

-- order by userid, order by discussionid
unfoldable pub text_le : String → String → Bool
unfolding codes_le codes
text_le s t = codes_le (codes s) (codes t)

-- order by dayid, slotidx
abbrev pub slot_le : Slot → Slot → Bool
slot_le s t = ltb s.day_id t.day_id || (s.day_id == t.day_id && leb s.slot_idx t.slot_idx)

-- isbreak = false and islocked = false
abbrev pub is_unlocked : Slot → Bool
is_unlocked s = not s.is_break && not s.is_locked

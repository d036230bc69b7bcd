-- ===== src/Schedule/Place.antt =====
-- placeDiscussions (event/schedule.go): a location for each discussion of a slot.
pub mod Laws
use session_scheduler.Base.{ℕ, String, List, [], ◌∷◌, length, ltb, if◌then◌else◌}
use session_scheduler.Errors.{message}
use session_scheduler.Tx.{Res, ok, err}
use session_scheduler.Db.{Scheduled}
use session_scheduler.Schedule.{SearchDiscussion, ScheduleSlot, Schedule, SearchStore}

-- A slot of the schedule once SlotID and LocationID of its discussions are set.
pub record PlacedSlot : Type 0 where
  pub slot_id : String
  pub entries : List Scheduled

-- slot.Discussions[j].LocationID = ss.Locations[j]
unfoldable pub set_locations : String → List ℕ → List SearchDiscussion → List Scheduled
set_locations sid locations [] = []
set_locations sid [] (d ∷ ds) = []
set_locations sid (l ∷ ls) (d ∷ ds) =
    record { discussion_id = d.discussion_id; slot_id = sid; location_id = l }
    ∷ set_locations sid ls ds

unfoldable pub place_slots : List ℕ → List ScheduleSlot → Res (List PlacedSlot)
unfolding set_locations
place_slots locations [] = ok []
place_slots locations (s ∷ ss) =
    if ltb (length locations) (length s.discussions)
    then err (message "Invalid schedule: more discussions in slot than locations")
    else elim (place_slots locations ss) [
      | ok placed ↦ ok (
          record { slot_id = s.slot_id; entries = set_locations s.slot_id locations s.discussions }
          ∷ placed)
      | err e ↦ err e
    ]

unfoldable pub place_discussions : SearchStore → Schedule → Res (List PlacedSlot)
unfolding place_slots
place_discussions ss sched = place_slots ss.locations sched.slots

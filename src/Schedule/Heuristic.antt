-- ===== src/Schedule/Heuristic.antt =====
-- scheduleMakeEmpty and makeScheduleHeuristic (event/schedule.go).
pub mod Best
pub mod Laws
use mathlib.Core.List.{Perm}
use session_scheduler.Base.{
  ℕ, suc, zero, ◌+◌, ◌-◌, String, Bool, true, false, not, Option, none, some, List, [], ◌∷◌, ◌++◌,
  map, length, any, ltb, leb, ◌==◌, string_key, if◌then◌else◌,
}
use session_scheduler.Schedule.{SearchDiscussion, ScheduleSlot, Schedule, SearchStore}
use session_scheduler.Schedule.Score.{score_slot_delta}

unfoldable pub schedule_make_empty : SearchStore → Schedule
schedule_make_empty ss = record {
  slots = map (λ sid. record { slot_id = sid; discussions = [] }) ss.slots;
  unplaced_discussions = ss.discussions;
}

-- sort.Slice by MaxInterest, high to low. It is not stable, so which of the orders it picks among
-- discussions of equal interest is left open.
pub record SliceSort : Type 0 where
  pub sort : List SearchDiscussion → List SearchDiscussion
  pub sort_perm : (ds : List SearchDiscussion) → Perm (sort ds) ds

-- struct{ score, index int }; `none` is the index -1.
pub record BestSlot : Type 0 where
  pub score : ℕ
  pub index : Option ℕ

-- May the discussion go into the slot: allowed, and a location free?
unfoldable pub is_open : ℕ → SearchDiscussion → ScheduleSlot → Bool
is_open nlocations disc slot =
    if not (any (λ sid. sid == slot.slot_id) disc.possible_slots)
    then false
    else not (leb nlocations (length slot.discussions))

-- The rise of the score, with the number of free locations to favour emptier slots.
unfoldable pub slot_value : ℕ → SearchDiscussion → ScheduleSlot → ℕ
slot_value nlocations disc slot =
    score_slot_delta slot.discussions disc + (nlocations - length slot.discussions)

-- The body of the loop over the slots.
unfoldable pub consider : ℕ → SearchDiscussion → ℕ → BestSlot → ScheduleSlot → BestSlot
unfolding is_open slot_value
consider nlocations disc i best slot =
    if is_open nlocations disc slot
    then (if ltb best.score (slot_value nlocations disc slot)
        then record { score = slot_value nlocations disc slot; index = some i }
        else best)
    else best

unfoldable pub find_best : ℕ → SearchDiscussion → ℕ → BestSlot → List ScheduleSlot → BestSlot
unfolding consider
find_best nlocations disc i best [] = best
find_best nlocations disc i best (s ∷ ss) =
    find_best nlocations disc (suc i) (consider nlocations disc i best s) ss

abbrev pub no_slot : BestSlot
no_slot = record { score = 0; index = none }

-- sched.Slots[i].Discussions = append(sched.Slots[i].Discussions, disc)
unfoldable pub put_in : ℕ → SearchDiscussion → List ScheduleSlot → List ScheduleSlot
put_in i disc [] = []
put_in zero disc (s ∷ ss) = record s { discussions = s.discussions ++ disc ∷ [] } ∷ ss
put_in (suc i) disc (s ∷ ss) = s ∷ put_in i disc ss

-- One round of the loop over the discussions; `unplaced` is kept in `unplaced_discussions`.
unfoldable pub place_at : SearchDiscussion → Schedule → Option ℕ → Schedule
unfolding put_in
place_at disc sched none = record sched {
  unplaced_discussions = sched.unplaced_discussions ++ disc ∷ [];
}
place_at disc sched (some i) = record sched { slots = put_in i disc sched.slots }

unfoldable pub place_one : ℕ → Schedule → SearchDiscussion → Schedule
unfolding find_best place_at
place_one nlocations sched disc =
    place_at disc sched (find_best nlocations disc 0 no_slot sched.slots).index

unfoldable pub place_all : ℕ → Schedule → List SearchDiscussion → Schedule
unfolding place_one
place_all nlocations sched [] = sched
place_all nlocations sched (d ∷ ds) = place_all nlocations (place_one nlocations sched d) ds

unfoldable pub make_schedule_heuristic : SliceSort → SearchStore → Schedule
unfolding schedule_make_empty place_all
make_schedule_heuristic sorter ss =
    let sched = schedule_make_empty ss in
    place_all (length ss.locations) (record sched { unplaced_discussions = [] })
      (sorter.sort sched.unplaced_discussions)

-- ===== src/Schedule/Place/Laws.antt =====
-- About placeDiscussions (event/schedule.go) on the schedules that the search makes.
use session_scheduler.Base.{
  ℕ, ◌≤◌, ◌≡◌, refl, ap, String, false, List, [], ◌∷◌, ◌++◌, map, length, ltb, All, arith,
}
use session_scheduler.Tx.{ok}
use session_scheduler.Db.{Scheduled}
use session_scheduler.Schedule.{SearchDiscussion, ScheduleSlot, SearchStore}
use session_scheduler.Schedule.Heuristic.{SliceSort, make_schedule_heuristic}
use session_scheduler.Schedule.Heuristic.Laws.{FitsSlot, make_schedule_heuristic-IsSound}
use session_scheduler.Schedule.Place.{PlacedSlot, set_locations, place_slots, place_discussions}

abbrev pub locations_of : List Scheduled → List ℕ
locations_of = map (λ (e : Scheduled). e.location_id)

abbrev pub discussions_of : List Scheduled → List String
discussions_of = map (λ (e : Scheduled). e.discussion_id)

-- The discussions of a slot, in their order, at the first locations, one each.
pub record IsPlaced (locations : List ℕ) (s : ScheduleSlot) (p : PlacedSlot) : Type 0 where
  pub same_slot : p.slot_id ≡ s.slot_id
  pub same_discussions :
      discussions_of p.entries ≡ map (λ (d : SearchDiscussion). d.discussion_id) s.discussions
  pub at_slot : All (λ e. e.slot_id ≡ s.slot_id) p.entries
  pub first_locations : (rest : List ℕ) × (locations ≡ locations_of p.entries ++ rest)

abbrev pub AllPlaced : List ℕ → List ScheduleSlot → List PlacedSlot → Type 0
AllPlaced locations [] [] = Unit {0}
AllPlaced locations (s ∷ ss) (p ∷ ps) = IsPlaced locations s p × AllPlaced locations ss ps
AllPlaced locations _ _ = ⊥

module _ (sid : String) where
  discussions-set_locations :
      (ls : List ℕ) (ds : List SearchDiscussion)
      → length ds ≤ length ls
      → discussions_of (set_locations sid ls ds)
        ≡ map (λ (d : SearchDiscussion). d.discussion_id) ds
  unfolding set_locations
  discussions-set_locations ls [] h = refl
  discussions-set_locations [] (d ∷ ds) h = absurd (omega (arith, h))
  discussions-set_locations (l ∷ ls) (d ∷ ds) h =
      ap (◌∷◌ d.discussion_id) (discussions-set_locations ls ds (omega (arith, h)))

  slot-set_locations :
      (ls : List ℕ) (ds : List SearchDiscussion)
      → All (λ e. e.slot_id ≡ sid) (set_locations sid ls ds)
  unfolding set_locations
  slot-set_locations ls [] = tt
  slot-set_locations [] (d ∷ ds) = tt
  slot-set_locations (l ∷ ls) (d ∷ ds) = (refl, slot-set_locations ls ds)

  locations-set_locations :
      (ls : List ℕ) (ds : List SearchDiscussion)
      → (rest : List ℕ) × (ls ≡ locations_of (set_locations sid ls ds) ++ rest)
  unfolding set_locations
  locations-set_locations ls [] = (ls, refl)
  locations-set_locations [] (d ∷ ds) = ([], refl)
  locations-set_locations (l ∷ ls) (d ∷ ds) =
      let (rest, e) = locations-set_locations ls ds in (rest, ap (◌∷◌ l) e)

place_slots_total :
    (locations : List ℕ) (ss : List ScheduleSlot)
    → All (FitsSlot (length locations)) ss
    → (ps : List PlacedSlot) × (place_slots locations ss ≡ ok ps) × AllPlaced locations ss ps
unfolding place_slots
place_slots_total locations [] h = ([], refl, tt)
place_slots_total locations (s ∷ ss) h =
    let (ps, e, all) = place_slots_total locations ss h.1 in
    let placed : PlacedSlot = record {
      slot_id = s.slot_id;
      entries = set_locations s.slot_id locations s.discussions;
    } in
    let room : ltb (length locations) (length s.discussions) ≡ false = ground (arith, h.0.room) in
    (
      placed ∷ ps,
      rw room (rw e refl),
      (
        record {
          same_slot = refl;
          same_discussions = discussions-set_locations s.slot_id locations s.discussions h.0.room;
          at_slot = slot-set_locations s.slot_id locations s.discussions;
          first_locations = locations-set_locations s.slot_id locations s.discussions;
        },
        all,
      ),
    )

-- placeDiscussions never fails on the schedule that makeScheduleHeuristic returns for the same
-- snapshot: each slot's discussions, in their order, get the slot's identifier and the first
-- locations of the snapshot, each a location of its own.
pub place_discussions_total :
    (sorter : SliceSort) (ss : SearchStore)
    → (ps : List PlacedSlot) × (place_discussions ss (make_schedule_heuristic sorter ss) ≡ ok ps)
      × AllPlaced ss.locations (make_schedule_heuristic sorter ss).slots ps
unfolding place_discussions
place_discussions_total sorter ss =
    let (sound, all) = make_schedule_heuristic-IsSound sorter ss in
    place_slots_total ss.locations (make_schedule_heuristic sorter ss).slots sound.fits

-- ===== src/Examples/Planned.antt =====
-- Scores, searches and schedules of the small event.
use mathlib.Core.List.{Perm}
use session_scheduler.Base.{
  ℕ, ◌+◌, ◌≤◌, max, ◌≡◌, ◌⊎◌, true, false, none, some, List, [], ◌∷◌, get_elem?, All,
}
use session_scheduler.Tx.{ok}
use session_scheduler.Db.{Scheduled, Db}
use session_scheduler.Schedule.{ScheduleSlot}
use session_scheduler.Schedule.Score.{
  max_interest_of, add_all_interest, add_discussion_interest, total, score_slot_delta,
}
use session_scheduler.Schedule.Score.Laws.{
  highest_in, highest, sum_interest, add_all_interest-max, score_slot_delta_bounds,
}
use session_scheduler.Schedule.Heuristic.{
  find_best, no_slot, is_open, slot_value, make_schedule_heuristic,
}
use session_scheduler.Schedule.Heuristic.Best.{find_best_optimal}
use session_scheduler.Schedule.Heuristic.Laws.{IsSound, everything, make_schedule_heuristic-IsSound}
use session_scheduler.Schedule.Place.{PlacedSlot, place_discussions}
use session_scheduler.Schedule.Place.Laws.{AllPlaced, place_discussions_total}
use session_scheduler.Examples.{event, entry, wanted, rival, store, unsorted}

add_all_interest-max_example :
    (max_interest_of "bob" (add_all_interest [] (wanted ∷ [])) ≡ highest_in "bob" (wanted ∷ []))
    × (max_interest_of "bob" (add_discussion_interest (add_all_interest [] (wanted ∷ [])) rival)
        ≡ max (highest_in "bob" (wanted ∷ [])) (highest "bob" rival.user_interest))
add_all_interest-max_example = add_all_interest-max "bob" (wanted ∷ []) rival

score_slot_delta_bounds_example :
    (total (add_all_interest [] (wanted ∷ [])) + score_slot_delta (wanted ∷ []) rival
      ≡ total (add_discussion_interest (add_all_interest [] (wanted ∷ [])) rival))
    × (score_slot_delta (wanted ∷ []) rival ≤ sum_interest rival.user_interest)
score_slot_delta_bounds_example = score_slot_delta_bounds (wanted ∷ []) rival

abbrev half_full : List ScheduleSlot
half_full =
    record { slot_id = "evening"; discussions = wanted ∷ [] }
    ∷ record { slot_id = "night"; discussions = [] }
    ∷ []

find_best_optimal_example :
    (((find_best 1 rival 0 no_slot half_full).index ≡ none)
      × All (λ s. is_open 1 rival s ≡ false) half_full)
    ⊎ ((j : ℕ) × (s : ScheduleSlot) × ((find_best 1 rival 0 no_slot half_full).index ≡ some j)
        × (get_elem? half_full j ≡ some s)
        × (is_open 1 rival s ≡ true)
        × All
            (λ t. is_open 1 rival t ≡ true → slot_value 1 rival t ≤ slot_value 1 rival s)
            half_full)
find_best_optimal_example = find_best_optimal 1 rival half_full

make_schedule_heuristic-IsSound_example :
    IsSound 1 ("evening" ∷ "night" ∷ []) (make_schedule_heuristic unsorted store)
    × Perm (everything (make_schedule_heuristic unsorted store)) (wanted ∷ rival ∷ [])
make_schedule_heuristic-IsSound_example = make_schedule_heuristic-IsSound unsorted store

place_discussions_total_example :
    (ps : List PlacedSlot) × (place_discussions store (make_schedule_heuristic unsorted store)
      ≡ ok ps)
    × AllPlaced (1 ∷ []) (make_schedule_heuristic unsorted store).slots ps
place_discussions_total_example = place_discussions_total unsorted store

abbrev evening_entry : Scheduled
evening_entry = record { discussion_id = "chat"; slot_id = "evening"; location_id = 1 }

abbrev planned : Db
planned = record event { schedule = entry ∷ evening_entry ∷ [] }

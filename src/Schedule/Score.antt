-- ===== src/Schedule/Score.antt =====
-- addDiscussionInterest and scoreSlotDelta (event/schedule.go).
pub mod Laws
use session_scheduler.Base.{
  ℕ, ◌+◌, ◌-◌, String, Bool, List, [], ◌∷◌, ltb, ◌==◌, string_key, if◌then◌else◌,
}
use session_scheduler.Schedule.{SearchDiscussion}

-- The map userMaxInt, with one entry for each key.
abbrev pub MaxInterest : Type 0
MaxInterest = List (String × ℕ)

-- A missing key reads as 0.
unfoldable pub max_interest_of : String → MaxInterest → ℕ
max_interest_of uid [] = 0
max_interest_of uid ((u, n) ∷ m) = if u == uid then n else max_interest_of uid m

unfoldable pub set_max_interest : String → ℕ → MaxInterest → MaxInterest
set_max_interest uid v [] = (uid, v) ∷ []
set_max_interest uid v ((u, n) ∷ m) =
    if u == uid then (u, v) ∷ m else (u, n) ∷ set_max_interest uid v m

unfoldable pub add_interest : MaxInterest → List (String × ℕ) → MaxInterest
unfolding max_interest_of set_max_interest
add_interest m [] = m
add_interest m ((uid, n) ∷ rest) =
    add_interest (if ltb (max_interest_of uid m) n then set_max_interest uid n m else m) rest

unfoldable pub add_discussion_interest : MaxInterest → SearchDiscussion → MaxInterest
unfolding add_interest
add_discussion_interest m disc = add_interest m disc.user_interest

unfoldable pub add_all_interest : MaxInterest → List SearchDiscussion → MaxInterest
unfolding add_discussion_interest
add_all_interest m [] = m
add_all_interest m (d ∷ ds) = add_all_interest (add_discussion_interest m d) ds

-- for _, interest := range userMaxInt { pre += interest }
unfoldable pub total : MaxInterest → ℕ
total [] = 0
total ((u, n) ∷ m) = n + total m

unfoldable pub score_slot_delta : List SearchDiscussion → SearchDiscussion → ℕ
unfolding add_all_interest total
score_slot_delta discussions hyp =
    let m = add_all_interest [] discussions in total (add_discussion_interest m hyp) - total m

-- ===== src/Schedule/Score/Laws.antt =====
-- About the score of a slot (event/schedule.go).
use session_scheduler.Base.{
  ℕ, ◌+◌, ◌≤◌, ◌≡◌, refl, ap, ◌∙◌, max, String, List, [], ◌∷◌, ltb, ◌==◌, ==_iff, string_key,
  if◌then◌else◌, arith,
}
use session_scheduler.Schedule.{SearchDiscussion}
use session_scheduler.Schedule.Score.{
  MaxInterest, max_interest_of, set_max_interest, add_interest, add_discussion_interest,
  add_all_interest, total, score_slot_delta,
}

-- d.MaxInterest += d.UserInterest[i].Interest, over all i
unfoldable pub sum_interest : List (String × ℕ) → ℕ
sum_interest [] = 0
sum_interest ((u, n) ∷ rest) = n + sum_interest rest

-- The highest interest that a user has in what the list shows.
unfoldable pub highest : String → List (String × ℕ) → ℕ
highest uid [] = 0
highest uid ((u, n) ∷ rest) = if u == uid then max n (highest uid rest) else highest uid rest

max_interest_of-set :
    (uid v : String) (n : ℕ) (m : MaxInterest)
    → max_interest_of v (set_max_interest uid n m) ≡ (if uid == v then n else max_interest_of v m)
unfolding max_interest_of set_max_interest
max_interest_of-set uid v n [] = refl
max_interest_of-set uid v n ((u, k) ∷ m) =
    ground (arith, ==_iff u uid, ==_iff u v, ==_iff uid v, max_interest_of-set uid v n m)

total-set :
    (uid : String) (n : ℕ) (m : MaxInterest)
    → total (set_max_interest uid n m) + max_interest_of uid m ≡ total m + n
unfolding total set_max_interest max_interest_of
total-set uid n [] = omega arith
total-set uid n ((u, k) ∷ m) = ground (arith, total-set uid n m)

-- The map after a discussion holds for each user the higher of what it held and what the user has
-- shown in the discussion.
pub max_interest_of-add_interest :
    (v : String) (m : MaxInterest) (l : List (String × ℕ))
    → max_interest_of v (add_interest m l) ≡ max (max_interest_of v m) (highest v l)
unfolding add_interest highest
max_interest_of-add_interest v m [] = omega arith
max_interest_of-add_interest v m ((u, n) ∷ l) = ground (
  arith,
  ==_iff u v,
  max_interest_of-set u v n m,
  max_interest_of-add_interest v (if ltb (max_interest_of u m) n then set_max_interest u n m else m)
      l,
)

total-add_interest :
    (m : MaxInterest) (l : List (String × ℕ))
    → (total m ≤ total (add_interest m l)) × (total (add_interest m l) ≤ total m + sum_interest l)
unfolding add_interest sum_interest
total-add_interest m [] = omega arith
total-add_interest m ((u, n) ∷ l) = ground (
  arith,
  total-set u n m,
  total-add_interest (if ltb (max_interest_of u m) n then set_max_interest u n m else m) l,
)

-- The highest interest of a user over the discussions of a slot.
unfoldable pub highest_in : String → List SearchDiscussion → ℕ
unfolding highest
highest_in v [] = 0
highest_in v (d ∷ ds) = max (highest v d.user_interest) (highest_in v ds)

max_interest_of-add_all :
    (v : String) (m : MaxInterest) (ds : List SearchDiscussion)
    → max_interest_of v (add_all_interest m ds) ≡ max (max_interest_of v m) (highest_in v ds)
unfolding add_all_interest add_discussion_interest highest_in
max_interest_of-add_all v m [] = omega arith
max_interest_of-add_all v m (d ∷ ds) = omega (
  arith,
  max_interest_of-add_interest v m d.user_interest,
  max_interest_of-add_all v (add_interest m d.user_interest) ds,
)

-- The map that scoreSlotDelta builds for a slot holds for every user the highest interest shown in
-- any discussion of the slot; with one more discussion, the higher of that and the interest there.
pub add_all_interest-max :
    (v : String) (ds : List SearchDiscussion) (hyp : SearchDiscussion)
    → (max_interest_of v (add_all_interest [] ds) ≡ highest_in v ds)
      × (max_interest_of v (add_discussion_interest (add_all_interest [] ds) hyp)
          ≡ max (highest_in v ds) (highest v hyp.user_interest))
unfolding add_discussion_interest
add_all_interest-max v ds hyp =
    let e : max_interest_of v (add_all_interest [] ds) ≡ highest_in v ds =
      unfold max_interest_of in omega (arith, max_interest_of-add_all v [] ds) in
    (
      e,
      max_interest_of-add_interest v (add_all_interest [] ds) hyp.user_interest
          ∙ ap (λ x. max x (highest v hyp.user_interest)) e,
    )

-- scoreSlotDelta is the whole rise of the sum over users: the sum never falls, and it rises by no
-- more than the interest shown in the new discussion.
pub score_slot_delta_bounds :
    (ds : List SearchDiscussion) (hyp : SearchDiscussion)
    → (total (add_all_interest [] ds) + score_slot_delta ds hyp
        ≡ total (add_discussion_interest (add_all_interest [] ds) hyp))
      × (score_slot_delta ds hyp ≤ sum_interest hyp.user_interest)
unfolding score_slot_delta add_discussion_interest
score_slot_delta_bounds ds hyp =
    omega (arith, total-add_interest (add_all_interest [] ds) hyp.user_interest)

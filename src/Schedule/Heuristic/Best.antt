-- ===== src/Schedule/Heuristic/Best.antt =====
-- About the slot that makeScheduleHeuristic (event/schedule.go) picks for one discussion.
use session_scheduler.Base.{
  ℕ, suc, zero, ◌+◌, ◌≤◌, ◌<◌, ◌≡◌, ◌⊎◌, inl, inr, refl, ap, subst, ◌∙◌, true, false, none, some,
  List, [], ◌∷◌, get_elem?, All, All-map, string_key, arith, Bool-cases,
}
use session_scheduler.Schedule.{SearchDiscussion, ScheduleSlot}
use session_scheduler.Schedule.Heuristic.{
  BestSlot, is_open, slot_value, consider, find_best, no_slot,
}

module _ (n : ℕ) (disc : SearchDiscussion) where
  -- A slot that is open has a free location, so its value is positive.
  slot_value_pos : (s : ScheduleSlot) → is_open n disc s ≡ true → 0 < slot_value n disc s
  unfolding is_open slot_value
  slot_value_pos s h = ground arith

  score-find_best_mono :
      (i : ℕ) (b : BestSlot) (ss : List ScheduleSlot) → b.score ≤ (find_best n disc i b ss).score
  unfolding find_best consider
  score-find_best_mono i b [] = omega arith
  score-find_best_mono i b (s ∷ ss) =
      ground (arith, score-find_best_mono (suc i) (consider n disc i b s) ss)

  -- No open slot is worth more than the result.
  find_best_max :
      (i : ℕ) (b : BestSlot) (ss : List ScheduleSlot)
      → All
          (λ s. is_open n disc s ≡ true → slot_value n disc s ≤ (find_best n disc i b ss).score)
          ss
  unfolding find_best consider
  find_best_max i b [] = tt
  find_best_max i b (s ∷ ss) = (
    λ h. ground (arith, score-find_best_mono (suc i) (consider n disc i b s) ss),
    find_best_max (suc i) (consider n disc i b s) ss,
  )

  -- Where the result comes from: the start, or an open slot of that value.
  abbrev Found : ℕ → BestSlot → List ScheduleSlot → BestSlot → Type 0
  Found i b ss r =
      (r ≡ b)
      ⊎ ((j : ℕ) × (s : ScheduleSlot) × (r.index ≡ some (i + j))
          × (get_elem? ss j ≡ some s)
          × (is_open n disc s ≡ true)
          × (r.score ≡ slot_value n disc s))

  consider_cases :
      (i : ℕ) (b : BestSlot) (s : ScheduleSlot)
      → (consider n disc i b s ≡ b)
        ⊎ ((is_open n disc s ≡ true)
            × (consider n disc i b s ≡ record { score = slot_value n disc s; index = some i }))
  unfolding consider
  consider_cases i b s = ground arith

  find_best-Found :
      (i : ℕ) (b : BestSlot) (ss : List ScheduleSlot) → Found i b ss (find_best n disc i b ss)
  unfolding find_best
  find_best-Found i b [] = inl refl
  find_best-Found i b (s ∷ ss) = go (find_best-Found (suc i) (consider n disc i b s) ss)
    where
      go :
          Found
            (suc i)
            (consider n disc i b s)
            ss
            (find_best n disc (suc i) (consider n disc i b s) ss)
          → Found i b (s ∷ ss) (find_best n disc i b (s ∷ ss))
      go (inl e) = elim (consider_cases i b s) [
        | inl kept ↦ inl (e ∙ kept)
        | inr (o, c) ↦ inr (
          zero,
          s,
          ap (λ (r : BestSlot). r.index) (e ∙ c) ∙ ap some (omega arith),
          refl,
          o,
          ap (λ (r : BestSlot). r.score) (e ∙ c),
        )
      ]
      go (inr (j, t, p, q, o, v)) = inr (suc j, t, p ∙ ap some (omega arith), q, o, v)

  -- A slot is found unless none is open.
  closed_if_none :
      (ss : List ScheduleSlot)
      → (find_best n disc 0 no_slot ss).index ≡ none
      → All (λ s. is_open n disc s ≡ false) ss
  closed_if_none ss h = elim (find_best-Found 0 no_slot ss) [
    | inl e ↦
        All-map _ (λ s. is_open n disc s ≡ false) ss (λ s most. closed s e most)
          (find_best_max 0 no_slot ss)
    | inr (j, s, p, q, o, v) ↦ absurd (ground arith)
  ]
    where
      closed :
          (s : ScheduleSlot)
          → find_best n disc 0 no_slot ss ≡ no_slot
          → (is_open n disc s ≡ true → slot_value n disc s ≤ (find_best n disc 0 no_slot ss).score)
          → is_open n disc s ≡ false
      closed s e most = elim (Bool-cases (is_open n disc s)) [
        | inl o ↦
            absurd (omega (arith, most o, slot_value_pos s o, ap (λ (r : BestSlot). r.score) e))
        | inr c ↦ c
      ]

  -- The search of makeScheduleHeuristic for one discussion picks no slot exactly if none is open to
  -- it (allowed, and with a free location), and otherwise an open slot of the highest value.
  pub find_best_optimal :
      (ss : List ScheduleSlot)
      → (((find_best n disc 0 no_slot ss).index ≡ none) × All (λ s. is_open n disc s ≡ false) ss)
        ⊎ ((j : ℕ) × (s : ScheduleSlot) × ((find_best n disc 0 no_slot ss).index ≡ some j)
            × (get_elem? ss j ≡ some s)
            × (is_open n disc s ≡ true)
            × All (λ t. is_open n disc t ≡ true → slot_value n disc t ≤ slot_value n disc s) ss)
  find_best_optimal ss = elim (find_best-Found 0 no_slot ss) [
    | inl e ↦
        let none_found = ap (λ (r : BestSlot). r.index) e in
        inl (none_found, closed_if_none ss none_found)
    | inr (j, s, p, q, o, v) ↦ inr (
      j,
      s,
      p ∙ ap some (omega arith),
      q,
      o,
      subst (λ x. All (λ t. is_open n disc t ≡ true → slot_value n disc t ≤ x) ss) v
          (find_best_max 0 no_slot ss),
    )
  ]

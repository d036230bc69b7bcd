-- ===== src/Schedule/Heuristic/Laws.antt =====
-- About the schedule that makeScheduleHeuristic (event/schedule.go) makes.
use mathlib.Core.List.{Perm, append_assoc, append-nil, perm_middle}
use mathlib.Core.List.Perm
use session_scheduler.Base.{
  ℕ, suc, zero, ◌≤◌, ◌≡◌, inl, inr, refl, ap, subst, ◌∙◌, String, Bool, true, false, none, some,
  List, [], ◌∷◌, ◌++◌, map, length, length-append, get_elem?, All, All-map, All-append, any, ◌==◌,
  string_key, arith,
}
use session_scheduler.Schedule.{SearchDiscussion, ScheduleSlot, Schedule, SearchStore}
use session_scheduler.Schedule.Heuristic.{
  SliceSort, schedule_make_empty, is_open, put_in, place_at, place_one, place_all,
  make_schedule_heuristic,
}
use session_scheduler.Schedule.Heuristic.Best.{find_best_optimal}

abbrev pub allows : SearchDiscussion → String → Bool
allows disc sid = any (λ x. x == sid) disc.possible_slots

-- All discussions of a schedule, placed or not.
abbrev pub placed : List ScheduleSlot → List SearchDiscussion
placed [] = []
placed (s ∷ ss) = s.discussions ++ placed ss

abbrev pub slot_ids : List ScheduleSlot → List String
slot_ids = map (λ s. s.slot_id)

-- A slot holds no more discussions than there are locations, and only such as allow it.
pub record FitsSlot (n : ℕ) (s : ScheduleSlot) : Type 0 where
  pub room : length s.discussions ≤ n
  pub allowed : All (λ d. allows d s.slot_id ≡ true) s.discussions

-- A discussion that no slot is open to.
abbrev pub ShutOut : ℕ → List ScheduleSlot → SearchDiscussion → Type 0
ShutOut n ss d = All (λ s. is_open n d s ≡ false) ss

module _ (n : ℕ) (disc : SearchDiscussion) where
  put-FitsSlot :
      (s : ScheduleSlot)
      → is_open n disc s ≡ true
      → FitsSlot n s
      → FitsSlot n (record s { discussions = s.discussions ++ disc ∷ [] })
  unfolding is_open
  put-FitsSlot s o f = record {
    room = ground (arith, length-append s.discussions (disc ∷ []), f.room);
    allowed =
        All-append (λ d. allows d s.slot_id ≡ true) s.discussions (disc ∷ []) f.allowed
          (ground arith, tt);
  }

  put_in-FitsSlot :
      (j : ℕ) (ss : List ScheduleSlot) (s : ScheduleSlot)
      → get_elem? ss j ≡ some s
      → is_open n disc s ≡ true
      → All (FitsSlot n) ss
      → All (FitsSlot n) (put_in j disc ss)
  unfolding put_in
  put_in-FitsSlot j [] s e o f = tt
  put_in-FitsSlot zero (x ∷ ss) s e o f =
      (put-FitsSlot x (subst (λ y. is_open n disc y ≡ true) (ground arith) o) f.0, f.1)
  put_in-FitsSlot (suc j) (x ∷ ss) s e o f = (f.0, put_in-FitsSlot j ss s e o f.1)

  -- What is shut out stays so when another discussion takes a place.
  put_in-ShutOut :
      (j : ℕ) (ss : List ScheduleSlot) (d : SearchDiscussion)
      → ShutOut n ss d
      → ShutOut n (put_in j disc ss) d
  unfolding put_in is_open
  put_in-ShutOut j [] d h = tt
  put_in-ShutOut zero (x ∷ ss) d h =
      (ground (arith, length-append x.discussions (disc ∷ []), h.0), h.1)
  put_in-ShutOut (suc j) (x ∷ ss) d h = (h.0, put_in-ShutOut j ss d h.1)

slot_ids-put_in :
    (j : ℕ) (disc : SearchDiscussion) (ss : List ScheduleSlot)
    → slot_ids (put_in j disc ss) ≡ slot_ids ss
unfolding put_in
slot_ids-put_in j disc [] = refl
slot_ids-put_in zero disc (x ∷ ss) = refl
slot_ids-put_in (suc j) disc (x ∷ ss) = ap (◌∷◌ x.slot_id) (slot_ids-put_in j disc ss)

placed-put_in-perm :
    (j : ℕ) (disc : SearchDiscussion) (ss : List ScheduleSlot) (s : ScheduleSlot)
    → get_elem? ss j ≡ some s
    → Perm (placed (put_in j disc ss)) (disc ∷ placed ss)
unfolding put_in
placed-put_in-perm j disc [] s e = absurd (ground arith)
placed-put_in-perm zero disc (x ∷ ss) s e =
    rw (append_assoc x.discussions (disc ∷ []) (placed ss)) (perm_middle x.discussions (placed ss))
placed-put_in-perm (suc j) disc (x ∷ ss) s e =
    Perm.trans (Perm.append (Perm.refl x.discussions) (placed-put_in-perm j disc ss s e))
      (perm_middle x.discussions (placed ss))

abbrev pub everything : Schedule → List SearchDiscussion
everything sched = placed sched.slots ++ sched.unplaced_discussions

-- What holds of the schedule throughout the search.
pub record IsSound (n : ℕ) (ids : List String) (sched : Schedule) : Type 0 where
  pub same_slots : slot_ids sched.slots ≡ ids
  pub fits : All (FitsSlot n) sched.slots
  pub shut : All (ShutOut n sched.slots) sched.unplaced_discussions

module _ (n : ℕ) (ids : List String) (sched : Schedule) (disc : SearchDiscussion) where
  place_one-step :
      IsSound n ids sched
      → IsSound n ids (place_one n sched disc)
        × Perm (everything (place_one n sched disc)) (disc ∷ everything sched)
  unfolding place_one
  place_one-step h = elim (find_best_optimal n disc sched.slots) [
    | inl (e, closed) ↦ rw e (set_aside h closed)
    | inr (j, s, e, at, o, most) ↦ rw e (put_there j s at o h)
  ]
    where
      set_aside :
          IsSound n ids sched
          → ShutOut n sched.slots disc
          → IsSound n ids (place_at disc sched none)
            × Perm (everything (place_at disc sched none)) (disc ∷ everything sched)
      set_aside h closed = (
        record {
          same_slots = h.same_slots;
          fits = h.fits;
          shut =
              All-append (ShutOut n sched.slots) sched.unplaced_discussions (disc ∷ []) h.shut
                (closed, tt);
        },
        subst (λ l. Perm l (disc ∷ everything sched))
            (append_assoc (placed sched.slots) sched.unplaced_discussions (disc ∷ []))
            (subst (λ l. Perm (everything sched ++ disc ∷ []) (disc ∷ l))
              (append-nil (everything sched)) (perm_middle (everything sched) [])),
      )

      put_there :
          (j : ℕ) (s : ScheduleSlot)
          → get_elem? sched.slots j ≡ some s
          → is_open n disc s ≡ true
          → IsSound n ids sched
          → IsSound n ids (place_at disc sched (some j))
            × Perm (everything (place_at disc sched (some j))) (disc ∷ everything sched)
      put_there j s at o h = (
        record {
          same_slots = slot_ids-put_in j disc sched.slots ∙ h.same_slots;
          fits = put_in-FitsSlot n disc j sched.slots s at o h.fits;
          shut =
              All-map (ShutOut n sched.slots) (ShutOut n (put_in j disc sched.slots))
                sched.unplaced_discussions (put_in-ShutOut n disc j sched.slots) h.shut;
        },
        Perm.append_right sched.unplaced_discussions (placed-put_in-perm j disc sched.slots s at),
      )

place_all-IsSound :
    (n : ℕ) (ids : List String) (sched : Schedule) (ds : List SearchDiscussion)
    → IsSound n ids sched
    → IsSound n ids (place_all n sched ds)
      × Perm (everything (place_all n sched ds)) (ds ++ everything sched)
unfolding place_all
place_all-IsSound n ids sched [] h = (h, Perm.refl _)
place_all-IsSound n ids sched (d ∷ ds) h =
    let (sound, one) = place_one-step n ids sched d h in
    let (sound', rest) = place_all-IsSound n ids (place_one n sched d) ds sound in
    (
      sound',
      Perm.trans rest (Perm.trans (Perm.append_left ds one) (perm_middle ds (everything sched))),
    )

abbrev empty_slot : String → ScheduleSlot
empty_slot sid = record { slot_id = sid; discussions = [] }

empty_slots :
    (n : ℕ) (ids : List String)
    → (slot_ids (map empty_slot ids) ≡ ids)
      × All (FitsSlot n) (map empty_slot ids)
      × (placed (map empty_slot ids) ≡ [])
empty_slots n [] = (refl, tt, refl)
empty_slots n (x ∷ ids) =
    let (p, q, r) = empty_slots n ids in
    (ap (◌∷◌ x) p, (record { room = omega arith; allowed = tt }, q), r)

-- The schedule that makeScheduleHeuristic returns has the slots of the snapshot in their order; it
-- holds every discussion exactly once, in a slot or among the unplaced; no slot has more
-- discussions than there are locations, or one that is not allowed in it; and for a discussion
-- left unplaced every slot is forbidden or full.
pub make_schedule_heuristic-IsSound :
    (sorter : SliceSort) (ss : SearchStore)
    → IsSound (length ss.locations) ss.slots (make_schedule_heuristic sorter ss)
      × Perm (everything (make_schedule_heuristic sorter ss)) ss.discussions
unfolding make_schedule_heuristic schedule_make_empty
make_schedule_heuristic-IsSound sorter ss =
    let n = length ss.locations in
    let (ids, fits, none_placed) = empty_slots n ss.slots in
    let start : Schedule = record { slots = map empty_slot ss.slots; unplaced_discussions = [] } in
    let (sound, all) =
      place_all-IsSound n ss.slots start (sorter.sort ss.discussions)
        (record { same_slots = ids; fits = fits; shut = tt }) in
    (
      sound,
      Perm.trans
          (subst (Perm (everything (place_all n start (sorter.sort ss.discussions))))
            (ap (λ l. sorter.sort ss.discussions ++ (l ++ [])) none_placed
              ∙ append-nil (sorter.sort ss.discussions))
            all)
          (sorter.sort_perm ss.discussions),
    )

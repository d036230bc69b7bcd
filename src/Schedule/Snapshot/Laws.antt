-- ===== src/Schedule/Snapshot/Laws.antt =====
-- About MakeSchedule (event/schedule.go), from the snapshot to the stored schedule.
use session_scheduler.Base.{
  ℕ, String, Bool, true, ◌≡◌, refl, sym, subst, Option, none, some, List, [], ◌∷◌, All, arith,
}
use session_scheduler.Sql.{select, first_where}
use session_scheduler.Tx.{Res, ok, err, Round, tx_loop}
use session_scheduler.Tx.Reads.{
  Reads, Reads-pure, Reads-throw, Reads-query, Reads-bind, Reads-then, Reads-or_retry, Reads-if,
  tx_loop-Reads,
}
use session_scheduler.Db.{Slot, Scheduled, Db}
use session_scheduler.Db.Keys.{is_slot, is_scheduled_at}
use session_scheduler.Schedule.{ScheduleSlot, SearchStore}
use session_scheduler.Schedule.Heuristic.{SliceSort, make_schedule_heuristic}
use session_scheduler.Schedule.Place.{PlacedSlot}
use session_scheduler.Schedule.Place.Laws.{AllPlaced, place_discussions_total}
use session_scheduler.Schedule.Store.{schedule_set}
use session_scheduler.Schedule.Store.Laws.{IsAtSlot, schedule_set_keeps_locked}
use session_scheduler.Schedule.Snapshot.{
  check_restriction, search_slots, search_discussion, search_discussions, check_all_public,
  check_some_slots, make_snapshot_tx, make_snapshot, store_schedule, make_schedule,
}

Reads-check_restriction : (ss : List String) → Reads {D = Db} (check_restriction ss)
unfolding check_restriction
Reads-check_restriction [] = Reads-throw _
Reads-check_restriction (s ∷ ss) = Reads-pure _

Reads-search_slots : (slots : List String) (did : String) (n : ℕ) → Reads (search_slots slots did n)
unfolding search_slots
Reads-search_slots slots did n =
    Reads-if _ _ _ (Reads-pure _)
      (Reads-bind _ _ (Reads-or_retry _ _ (Reads-query _)) Reads-check_restriction)

Reads-search_discussion :
    (slots : List String) (x : String × String) → Reads (search_discussion slots x)
unfolding search_discussion
Reads-search_discussion slots (did, owner) =
    Reads-bind _ _ (Reads-or_retry _ _ (Reads-query _)) λ n.
      Reads-bind _ _ (Reads-search_slots slots did n)
        λ pslots. Reads-bind _ _ (Reads-or_retry _ _ (Reads-query _)) (λ i. Reads-pure _)

Reads-search_discussions :
    (slots : List String) (xs : List (String × String)) → Reads (search_discussions slots xs)
unfolding search_discussions
Reads-search_discussions slots [] = Reads-pure _
Reads-search_discussions slots (x ∷ xs) =
    Reads-bind _ _ (Reads-search_discussion slots x)
      λ d. Reads-bind _ _ (Reads-search_discussions slots xs) (λ ds. Reads-pure _)

Reads-check_some_slots : (ss : List String) → Reads {D = Db} (check_some_slots ss)
unfolding check_some_slots
Reads-check_some_slots [] = Reads-throw _
Reads-check_some_slots (s ∷ ss) = Reads-pure _

Reads-make_snapshot_tx : (text_le : String → String → Bool) → Reads (make_snapshot_tx text_le)
unfolding make_snapshot_tx check_all_public
Reads-make_snapshot_tx text_le = Reads-bind _ _ (Reads-or_retry _ _ (Reads-query _)) λ n.
    Reads-then _ _ (Reads-if _ _ _ (Reads-pure _) (Reads-throw _)) (
      Reads-bind _ _ (Reads-or_retry _ _ (Reads-query _)) λ slots.
        Reads-then _ _ (Reads-check_some_slots slots) (
          Reads-bind _ _ (Reads-query _) λ users.
            Reads-bind _ _ (Reads-or_retry _ _ (Reads-query _)) λ ls.
              Reads-bind _ _ (Reads-or_retry _ _ (Reads-query _))
                λ ds. Reads-bind _ _ (Reads-search_discussions slots ds) (λ found. Reads-pure _)))

AllPlaced-IsAtSlot :
    (locations : List ℕ) (ss : List ScheduleSlot) (ps : List PlacedSlot)
    → AllPlaced locations ss ps
    → All IsAtSlot ps
AllPlaced-IsAtSlot locations [] [] h = tt
AllPlaced-IsAtSlot locations (s ∷ ss) (p ∷ ps) h = (
  subst (λ x. All (λ (e : Scheduled). e.slot_id ≡ x) p.entries) (sym h.0.same_slot) h.0.at_slot,
  AllPlaced-IsAtSlot locations ss ps h.1,
)
AllPlaced-IsAtSlot locations [] (p ∷ ps) h = absurd h
AllPlaced-IsAtSlot locations (s ∷ ss) [] h = tt

module _ (text_le : String → String → Bool) (sorter : SliceSort) (s : Slot) where
  store_schedule_keeps_locked :
      (ss : SearchStore) (rs : List Round) (db db' : Db)
      → first_where (is_slot s.slot_id) db.slots ≡ some s
      → s.is_locked ≡ true
      → store_schedule ss (make_schedule_heuristic sorter ss) rs db ≡ some (ok tt, db')
      → (select (is_scheduled_at s.slot_id) db'.schedule
          ≡ select (is_scheduled_at s.slot_id) db.schedule)
        × (db' ≡ record db { schedule = db'.schedule })
  unfolding store_schedule
  store_schedule_keeps_locked ss rs db db' found locked h =
      let (ps, e, all) = place_discussions_total sorter ss in
      schedule_set_keeps_locked s ps rs db db'
        (AllPlaced-IsAtSlot ss.locations (make_schedule_heuristic sorter ss).slots ps all) found
        locked
        (subst
          (λ o.
            elim o [ ok placed ↦ schedule_set placed rs db | err x ↦ some (err x, db) ]
            ≡ some (ok tt, db'))
          e h)

  -- When MakeSchedule succeeds, whatever the driver did in its two transactions, the schedule
  -- entries of every locked slot are as they were, and so are all tables other than the schedule.
  pub make_schedule_keeps_locked :
      (reading writing : List Round) (db db' : Db)
      → first_where (is_slot s.slot_id) db.slots ≡ some s
      → s.is_locked ≡ true
      → make_schedule text_le sorter reading writing db ≡ some (ok tt, db')
      → (select (is_scheduled_at s.slot_id) db'.schedule
          ≡ select (is_scheduled_at s.slot_id) db.schedule)
        × (db' ≡ record db { schedule = db'.schedule })
  unfolding make_schedule make_snapshot
  make_schedule_keeps_locked reading writing db db' found locked h =
      go (tx_loop (make_snapshot_tx text_le) reading db) refl h
    where
      go :
          (o : Option (Res SearchStore × Db))
          → tx_loop (make_snapshot_tx text_le) reading db ≡ o
          → elim o [
            | none ↦ none
            | some (err e, d) ↦ some (err e, d)
            | some (ok ss, d) ↦ store_schedule ss (make_schedule_heuristic sorter ss) writing d
          ]
            ≡ some (ok tt, db')
          → (select (is_scheduled_at s.slot_id) db'.schedule
              ≡ select (is_scheduled_at s.slot_id) db.schedule)
            × (db' ≡ record db { schedule = db'.schedule })
      go none p k = absurd (ground arith)
      go (some (err e, d)) p k = absurd (ground arith)
      go (some (ok ss, d)) p k =
          let same = tx_loop-Reads _ (Reads-make_snapshot_tx text_le) reading db d (ok ss) p in
          store_schedule_keeps_locked ss writing db db' found locked (
            subst
              (λ x.
                store_schedule ss (make_schedule_heuristic sorter ss) writing x ≡ some (ok tt, db'))
              same k)

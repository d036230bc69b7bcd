-- ===== src/Schedule/Store/Laws.antt =====
-- About scheduleSet (event/schedule.go) and locked slots.
use mathlib.Core.List.{append_assoc, append-nil}
use session_scheduler.Base.{
  ℕ, ◌≡◌, ◌≢◌, refl, ap, sym, ◌∙◌, subst, true, false, some, List, [], ◌∷◌, ◌++◌, All, All-map,
  ==_iff, string_key, nat_key, arith,
}
use session_scheduler.Sql.{select, delete_where, first_where}
use session_scheduler.Sql.Laws.{select-delete_where_ne, select-append_none}
use session_scheduler.Tx.{Res, ok, err, Conn, Round, pure, throw}
use session_scheduler.Tx.Atomic.{start}
use session_scheduler.Tx.Run.{
  try_row->>=-ran, check->>-ran, try->>=-ran, >>-ran, exec-ran, or_retry-ran,
}
use session_scheduler.Tx.Steady.{
  Steady, Steady-pure, Steady-throw, Steady-if, Steady-bind, Steady-then, Steady-or_retry,
  Steady-exec, tx_loop_ran,
}
use session_scheduler.Db.{Slot, Scheduled, Db}
use session_scheduler.Db.Keys.{is_slot, is_scheduled_at}
use session_scheduler.Db.Tables.{delete_schedule, insert_scheduled, insert_all}
use session_scheduler.Schedule.Place.{PlacedSlot}
use session_scheduler.Schedule.Store.{
  done, insert_entries, check_slot_free, add_entries, schedule_set_slot, schedule_set_tx,
  schedule_set,
}

Steady-add_entries : (es : List Scheduled) → Steady (add_entries es)
unfolding add_entries
Steady-add_entries [] = Steady-pure tt
Steady-add_entries (e ∷ es) = Steady-or_retry _ _ (Steady-exec _)

Steady-schedule_set_slot : (p : PlacedSlot) → Steady (schedule_set_slot p)
unfolding schedule_set_slot check_slot_free
Steady-schedule_set_slot p = Steady-bind _ _ (Steady-or_retry _ _ (Steady-exec _)) λ s.
    Steady-then _ _ (Steady-if _ _ _ (Steady-throw _) (Steady-pure tt))
      (Steady-bind _ _ (Steady-or_retry _ _ (Steady-exec _)) (λ n. Steady-add_entries p.entries))

Steady-schedule_set_tx : (ps : List PlacedSlot) → Steady (schedule_set_tx ps)
unfolding schedule_set_tx
Steady-schedule_set_tx [] = Steady-pure tt
Steady-schedule_set_tx (p ∷ ps) =
    Steady-then _ _ (Steady-schedule_set_slot p) (Steady-schedule_set_tx ps)

-- What a run of the transaction can do: rows of the schedule change, and nothing else.
abbrev with_schedule : List Scheduled → Db → Db
with_schedule es db = record db { schedule = es }

insert_scheduled_lem :
    (e : Scheduled) (db db' : Db)
    → insert_scheduled e db ≡ ok db'
    → db' ≡ with_schedule (db.schedule ++ e ∷ []) db
unfolding insert_scheduled
insert_scheduled_lem e db db' h = ground arith

insert_all_lem :
    (es : List Scheduled) (db db' : Db)
    → insert_all insert_scheduled es db ≡ ok db'
    → db' ≡ with_schedule (db.schedule ++ es) db
insert_all_lem [] db db' h = rw (append-nil db.schedule) (ground arith)
insert_all_lem (e ∷ es) db db' h = go (insert_scheduled e db) refl (insert_all_lem es) h
  where
    go :
        (r : Res Db)
        → insert_scheduled e db ≡ r
        → ((d d' : Db)
            → insert_all insert_scheduled es d ≡ ok d'
            → d' ≡ with_schedule (d.schedule ++ es) d)
        → elim r [ ok d ↦ insert_all insert_scheduled es d | err x ↦ err x ] ≡ ok db'
        → db' ≡ with_schedule (db.schedule ++ e ∷ es) db
    go (ok d) p ih q =
        ih d db' q
        ∙ ap (λ x. with_schedule (x.schedule ++ es) x) (insert_scheduled_lem e db d p)
        ∙ ap (λ x. with_schedule x db) (append_assoc db.schedule (e ∷ []) es)
    go (err x) p ih q = absurd (ground arith)

done-ran : (r : Res Db) (db' : Db) (u : Unit {0}) → done r ≡ ok (db', u) → r ≡ ok db'
done-ran (ok d) db' u h = ground arith
done-ran (err e) db' u h = absurd (ground arith)

add_entries-ran :
    (es : List Scheduled) (db : Db) (c : Conn Db)
    → add_entries es (start db []) ≡ (ok tt, c)
    → c ≡ start (with_schedule (db.schedule ++ es) db) []
unfolding add_entries pure insert_entries
add_entries-ran [] db c h = rw (append-nil db.schedule) (ground arith)
add_entries-ran (e ∷ es) db c h =
    let (db', p, q) = exec-ran (insert_entries (e ∷ es)) db (or_retry-ran _ _ h) in
    p ∙ ap (λ x. start x []) (insert_all_lem (e ∷ es) db db' (done-ran _ db' tt q))

check_slot_free_inv :
    (s : Slot) (c : Conn Db)
    → (check_slot_free s c).0 ≡ ok tt
    → (s.is_locked ≡ false) × (s.is_break ≡ false) × ((check_slot_free s c).1 ≡ c)
unfolding check_slot_free pure throw
check_slot_free_inv s c h = ground arith

-- One slot of the schedule, once the transaction gets past it.
schedule_set_slot-ran :
    (p : PlacedSlot) (db : Db) (c : Conn Db)
    → schedule_set_slot p (start db []) ≡ (ok tt, c)
    → (s : Slot) × (first_where (is_slot p.slot_id) db.slots ≡ some s)
      × (s.is_locked ≡ false)
      × (s.is_break ≡ false)
      × (c
          ≡ start
              (with_schedule (delete_where (is_scheduled_at p.slot_id) db.schedule ++ p.entries) db)
              [])
unfolding schedule_set_slot delete_schedule
schedule_set_slot-ran p db c h =
    let (s, found, rest) = try_row->>=-ran _ _ _ db h in
    let (free, rest') =
      check->>-ran (check_slot_free s) _
        (λ c₁ e. sym (ap (λ z. z.1) e) ∙ (check_slot_free_inv s (start db []) (ap (λ z. z.0) e)).2)
        rest in
    let (unlocked, not_break, _) = check_slot_free_inv s (start db []) free in
    let (n, db', d, rest'') =
      try->>=-ran _ (delete_schedule (is_scheduled_at p.slot_id)) _ db rest' in
    (
      s,
      found,
      unlocked,
      not_break,
      add_entries-ran p.entries db' c rest''
          ∙ ap (λ x. start (with_schedule (x.schedule ++ p.entries) x) [])
              (deleted_lem p db db' n d),
    )
  where
    deleted_lem :
        (p : PlacedSlot) (db db' : Db) (n : ℕ)
        → delete_schedule (is_scheduled_at p.slot_id) db ≡ ok (db', n)
        → db' ≡ with_schedule (delete_where (is_scheduled_at p.slot_id) db.schedule) db
    deleted_lem p db db' n h = ground arith

-- The entries of a placed slot are entries at that slot.
abbrev pub IsAtSlot : PlacedSlot → Type 0
IsAtSlot p = All (λ e. e.slot_id ≡ p.slot_id) p.entries

module _ (s : Slot) where
  abbrev entries_at : Db → List Scheduled
  entries_at db = select (is_scheduled_at s.slot_id) db.schedule

  -- A slot that is locked is not one of those that the transaction gets past.
  other_slot :
      (p : PlacedSlot) (t : Slot) (db : Db)
      → first_where (is_slot s.slot_id) db.slots ≡ some s
      → s.is_locked ≡ true
      → first_where (is_slot p.slot_id) db.slots ≡ some t
      → t.is_locked ≡ false
      → p.slot_id ≢ s.slot_id
  other_slot p t db found locked found' unlocked e =
      let same : some t ≡ some s =
        sym found' ∙ ap (λ x. first_where (is_slot x) db.slots) e ∙ found in
      let agree : t.is_locked ≡ s.is_locked = ground arith in ground arith

  kept_by_slot :
      (p : PlacedSlot) (db : Db)
      → IsAtSlot p
      → p.slot_id ≢ s.slot_id
      → select
          (is_scheduled_at s.slot_id)
          (delete_where (is_scheduled_at p.slot_id) db.schedule ++ p.entries)
        ≡ entries_at db
  kept_by_slot p db at ne =
      select-append_none (is_scheduled_at s.slot_id) _ p.entries (
        All-map (λ e. e.slot_id ≡ p.slot_id) (λ e. is_scheduled_at s.slot_id e ≡ false) p.entries
          (λ e h. grind (arith, h, ne, ==_iff e.slot_id s.slot_id)) at)
      ∙ select-delete_where_ne (is_scheduled_at s.slot_id) (is_scheduled_at p.slot_id) db.schedule
          (λ e h. grind (arith, h, ne, ==_iff e.slot_id s.slot_id, ==_iff e.slot_id p.slot_id))

  schedule_set_tx-ran :
      (ps : List PlacedSlot) (db : Db) (c : Conn Db)
      → All IsAtSlot ps
      → first_where (is_slot s.slot_id) db.slots ≡ some s
      → s.is_locked ≡ true
      → schedule_set_tx ps (start db []) ≡ (ok tt, c)
      → (entries_at c.db ≡ entries_at db) × (c.db ≡ with_schedule c.db.schedule db)
  unfolding schedule_set_tx pure
  schedule_set_tx-ran [] db c at found locked h = (ground arith, ground arith)
  schedule_set_tx-ran (p ∷ ps) db c at found locked h =
      let (c₁, first, rest) = >>-ran (schedule_set_slot p) (schedule_set_tx ps) h in
      let (t, found', unlocked, not_break, e) = schedule_set_slot-ran p db c₁ first in
      let ne = other_slot p t db found locked found' unlocked in
      let es = delete_where (is_scheduled_at p.slot_id) db.schedule ++ p.entries in
      let (kept, only) =
        schedule_set_tx-ran ps (with_schedule es db) c at.1 found locked
          (subst (λ x. schedule_set_tx ps x ≡ (ok tt, c)) e rest) in
      (kept ∙ kept_by_slot p db at.0 ne, only)

-- When scheduleSet succeeds, whatever the driver did on the way, the schedule entries of every
-- locked slot are as they were, and so are all tables other than the schedule. The entries that
-- it is given for a slot are to name that slot.
pub schedule_set_keeps_locked :
    (s : Slot) (ps : List PlacedSlot) (rs : List Round) (db db' : Db)
    → All IsAtSlot ps
    → first_where (is_slot s.slot_id) db.slots ≡ some s
    → s.is_locked ≡ true
    → schedule_set ps rs db ≡ some (ok tt, db')
    → (select (is_scheduled_at s.slot_id) db'.schedule
        ≡ select (is_scheduled_at s.slot_id) db.schedule)
      × (db' ≡ record db { schedule = db'.schedule })
unfolding schedule_set
schedule_set_keeps_locked s ps rs db db' at found locked h =
    schedule_set_tx-ran s ps db (start db' []) at found locked
      (tx_loop_ran _ (Steady-schedule_set_tx ps) rs db db' tt h)

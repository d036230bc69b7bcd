-- ===== src/Discussion/Possible.antt =====
-- The slots to which a discussion is restricted (event/discussion.go). No row at all stands for no
-- restriction.
-- `named_exec_empty` is what sqlx.NamedExec reports for an empty slice.
use session_scheduler.Base.{
  ℕ, String, Bool, true, not, ◌&&◌, Option, List, [], ◌∷◌, map, any, length, ltb, ◌==◌, string_key,
  if◌then◌else◌,
}
use session_scheduler.Sql.{select, count_where, order_by}
use session_scheduler.Tx.{
  Res, ok, err, Tx, Statement, Round, pure, exec, query, ◌>>=◌, or_retry, tx_loop,
}
use session_scheduler.Db.{Slot, PossibleSlot, Db}
use session_scheduler.Db.Keys.{is_possible_for, slot_le}
use session_scheduler.Db.Tables.{delete_possible_slots, insert_possible_slot, insert_all}

-- TimeDisplay is set by the callers only.
pub record DisplaySlot : Type 0 where
  pub slot_id : String
  pub slot_time : ℕ
  pub checked : Bool

abbrev pub is_checked : DisplaySlot → Bool
is_checked s = s.checked

abbrev pub check_slot : DisplaySlot → DisplaySlot
check_slot s = record s { checked = true }

-- No entries at all means all entries are OK.
unfoldable pub possible_slots_db_to_display : List DisplaySlot → List DisplaySlot
possible_slots_db_to_display pslots =
    if any is_checked pslots then pslots else map check_slot pslots

abbrev pub done : Res Db → Res (Db × Unit {0})
done (ok db) = ok (db, tt)
done (err e) = err e

unfoldable pub insert_restriction : Res (Unit {0}) → List PossibleSlot → Statement Db (Unit {0})
insert_restriction (ok u) [] db = ok (db, u)
insert_restriction (err e) [] db = err e
insert_restriction named_exec_empty (p ∷ ps) db = done (insert_all insert_possible_slot (p ∷ ps) db)

-- Rows are needed only if some slot is left out.
unfoldable pub add_restriction : Res (Unit {0}) → List PossibleSlot → ℕ → Tx Db (Unit {0})
unfolding insert_restriction
add_restriction named_exec_empty ps nslots =
    if ltb (length ps) nslots
    then or_retry "Adding new slots" (exec (insert_restriction named_exec_empty ps))
    else pure tt

unfoldable pub possible_rows : String → List String → List PossibleSlot
possible_rows did = map (λ sid. record { discussion_id = did; slot_id = sid })

unfoldable pub discussion_set_possible_slots_tx :
    Res (Unit {0}) → String → List String → Tx Db (Unit {0})
unfolding add_restriction possible_rows count_where
discussion_set_possible_slots_tx named_exec_empty did pslots = do
  nslots ←
      or_retry "Getting number of slots"
        (exec (query (λ (db : Db). count_where (λ (s : Slot). not s.is_break) db.slots)))
  _ ←
      or_retry "Dropping discussion slot restrictions"
        (exec (delete_possible_slots (is_possible_for did)))
  add_restriction named_exec_empty (possible_rows did pslots) nslots

unfoldable pub discussion_set_possible_slots :
    Res (Unit {0}) → String → List String → List Round → Db → Option (Res (Unit {0}) × Db)
unfolding discussion_set_possible_slots_tx
discussion_set_possible_slots named_exec_empty did pslots =
    tx_loop (discussion_set_possible_slots_tx named_exec_empty did pslots)

abbrev pub is_possible : String → String → PossibleSlot → Bool
is_possible did sid p = p.discussion_id == did && p.slot_id == sid

-- from event_slots natural left outer join (select * from ... where discussionid=?)
unfoldable pub possible_slots : String → Db → List DisplaySlot
unfolding select order_by
possible_slots did db =
    map
      (λ (s : Slot). record {
        slot_id = s.slot_id;
        slot_time = s.slot_time;
        checked = any (is_possible did s.slot_id) db.possible_slots;
      })
      (order_by slot_le (select (λ (s : Slot). not s.is_break) db.slots))

unfoldable pub discussion_get_possible_slots_tx : String → Tx Db (List DisplaySlot)
unfolding possible_slots possible_slots_db_to_display
discussion_get_possible_slots_tx did = do
  ds ← exec (query (possible_slots did))
  pure (possible_slots_db_to_display ds)

unfoldable pub discussion_get_possible_slots :
    String → List Round → Db → Option (Res (List DisplaySlot) × Db)
unfolding discussion_get_possible_slots_tx
discussion_get_possible_slots did =
    tx_loop
      (or_retry "Getting possible slots for discussion" (discussion_get_possible_slots_tx did))

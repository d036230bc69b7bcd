-- ===== src/Discussion/Full/Slots.antt =====
-- The slots that a discussion is shown with (event/discussion.go, discussionGetPossibleSlotsTx).
use mathlib.Core.List.{Perm}
use session_scheduler.Base.{
  ◌≡◌, refl, ap, ◌∙◌, String, Bool, true, false, not, ◌&&◌, ◌||◌, List, [], ◌∷◌, map, any, arith,
  ltb, leb, ◌==◌, ==_iff, nat_key, string_key, if◌then◌else◌,
}
use session_scheduler.Sql.{select, order_by}
use session_scheduler.Sql.Order.{IsOrdered, order_by-perm, order_by-IsOrdered}
use session_scheduler.Db.{Slot, PossibleSlot, Db}
use session_scheduler.Discussion.Possible.{
  DisplaySlot, is_checked, check_slot, possible_slots, possible_slots_db_to_display,
}

-- By day, and on a day by index.
abbrev pub by_day : Slot → Slot → Bool
by_day s t = ltb s.day_id t.day_id || (s.day_id == t.day_id && leb s.slot_idx t.slot_idx)

by_day-total : (s t : Slot) → (by_day s t || by_day t s) ≡ true
by_day-total s t = grind (arith, ==_iff s.day_id t.day_id, ==_iff t.day_id s.day_id)

module _ (did : String) (db : Db) where
  -- Is there a row that lets the discussion into the slot?
  abbrev pub is_named : Slot → Bool
  is_named s =
      any (λ (p : PossibleSlot). p.discussion_id == did && p.slot_id == s.slot_id) db.possible_slots

  -- A discussion for which no slot is named may be in all of them.
  abbrev pub offered : (is_restricted : Bool) → Slot → DisplaySlot
  offered is_restricted s = record {
    slot_id = s.slot_id;
    slot_time = s.slot_time;
    checked = if is_restricted then is_named s else true;
  }

  -- Every slot that is no break once, by day and index, checked as it is offered.
  abbrev pub IsListed : List DisplaySlot → Type 0
  IsListed ps =
      (ss : List Slot) × Perm ss (select (λ (s : Slot). not s.is_break) db.slots)
      × IsOrdered by_day ss
      × (ps ≡ map (offered (any is_named ss)) ss)

  any_checked : (ss : List Slot) → any is_checked (map (offered true) ss) ≡ any is_named ss
  any_checked [] = refl
  any_checked (s ∷ ss) = ap (λ b. is_named s || b) (any_checked ss)

  check_all : (ss : List Slot) → map check_slot (map (offered true) ss) ≡ map (offered false) ss
  check_all [] = refl
  check_all (s ∷ ss) = ap (λ ps. offered false s ∷ ps) (check_all ss)

  display_lem :
      (ss : List Slot)
      → possible_slots_db_to_display (map (offered true) ss) ≡ map (offered (any is_named ss)) ss
  unfolding possible_slots_db_to_display
  display_lem ss =
      ap (λ b. if b then map (offered true) ss else map check_slot (map (offered true) ss))
        (any_checked ss)
      ∙ go (any is_named ss)
    where
      go :
          (b : Bool)
          → (if b then map (offered true) ss else map check_slot (map (offered true) ss))
            ≡ map (offered b) ss
      go true = refl
      go false = check_all ss

  pub possible_slots-IsListed : IsListed (possible_slots_db_to_display (possible_slots did db))
  unfolding possible_slots
  possible_slots-IsListed =
      let rows = select (λ (s : Slot). not s.is_break) db.slots in
      (
        order_by by_day rows,
        order_by-perm by_day rows,
        order_by-IsOrdered by_day by_day-total rows,
        display_lem (order_by by_day rows),
      )

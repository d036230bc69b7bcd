-- ===== src/Examples/Looked.antt =====
-- Lookups, with a driver that makes them try again.
use mathlib.Core.List.{Perm}
use session_scheduler.Sql.Order.{IsOrdered}
use session_scheduler.Db.{User}
use session_scheduler.Base.{List, ℕ, suc, ◌≡◌, refl, true, none, some, [], ◌∷◌}
use session_scheduler.Sql.{first_where, select, order_by, insert_ordered}
use session_scheduler.Errors.{codes, should_retry, err_or_retry}
use session_scheduler.Tx.{ok, exec, query, get_row, pure, ◌>>=◌, tx_round, is_locked}
use session_scheduler.Tx.Variable.{tx_loop_var, tx_loop_var_from, assigned, get_row_into}
use session_scheduler.Db.Keys.{is_user, text_le, codes_le}
use session_scheduler.User.Find.{
  user_find, user_find_tx, user_get_tx, Callback, user_iterate, scan_rows, process, rows_err,
  users_in_order,
}
use session_scheduler.User.Find.Laws.{user_find_finds}
use session_scheduler.User.Find.Iterate.{by_id, visit_all, user_iterate_visits_all}
use session_scheduler.Discussion.Possible.{
  possible_slots, possible_slots_db_to_display, discussion_get_possible_slots_tx,
}
use session_scheduler.Discussion.Full.{
  DiscussionFull, schedule_info, read_slots, read_schedule, read_owner,
  discussion_find_by_id_full_tx, discussion_find_by_id_full,
}
use session_scheduler.Discussion.Full.Laws.{FullOutcome, discussion_find_by_id_full-FullOutcome}
use session_scheduler.Examples.{quiet, contended, late, ann, bob, talk, event}

user_find_finds_example : (some bob ≡ first_where (is_user "bob") event.users) × (event ≡ event)
unfolding user_find user_find_tx user_get_tx get_row_into get_row first_where exec tx_loop_var
    tx_loop_var_from assigned tx_round should_retry
user_find_finds_example = user_find_finds "bob" (late ∷ quiet ∷ []) event event (some bob) refl

-- A callback that counts.
abbrev count_users : Callback ℕ
count_users u n = (none, suc n)

user_iterate_visits_all_example :
    (us : List User) × Perm us event.users × IsOrdered by_id us × (2 ≡ visit_all count_users us 0)
unfolding user_iterate scan_rows process rows_err users_in_order order_by insert_ordered text_le
    codes_le codes should_retry
user_iterate_visits_all_example =
    user_iterate_visits_all count_users
      (record { queryx = none; stops = some (0, is_locked) }
        ∷ record { queryx = none; stops = none }
        ∷ [])
      event 0 2 refl

abbrev talk_full : DiscussionFull
talk_full = record {
  discussion = talk;
  owner_info = ann;
  location = record {
    location_id = 1;
    location_name = "Hall";
    location_url = "";
    is_place = true;
    capacity = 9;
  };
  time = some 9;
  is_final = true;
  possible_slots =
      record { slot_id = "morning"; slot_time = 9; checked = true }
      ∷ record { slot_id = "evening"; slot_time = 17; checked = true }
      ∷ [];
}

discussion_find_by_id_full-FullOutcome_example :
    FullOutcome "talk" event (some talk_full) (ok tt) × (event ≡ event)
unfolding discussion_find_by_id_full discussion_find_by_id_full_tx read_owner read_schedule
    read_slots schedule_info user_get_tx get_row_into get_row query first_where exec pure ◌>>=◌
    discussion_get_possible_slots_tx possible_slots possible_slots_db_to_display order_by
    insert_ordered select tx_loop_var tx_loop_var_from assigned tx_round should_retry err_or_retry
discussion_find_by_id_full-FullOutcome_example =
    discussion_find_by_id_full-FullOutcome "talk" event (contended ∷ quiet ∷ []) event
      (some talk_full) (ok tt) refl

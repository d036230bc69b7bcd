-- ===== src/Examples/Stored.antt =====
-- What the operations on users and discussions leave in the small event.
use session_scheduler.Base.{
  ℕ, ◌≤◌, ◌≡◌, ◌⊎◌, refl, pos, String, Bool, true, false, none, some, [], ◌∷◌, ◌++◌, any, ◌==◌,
  string_key,
}
use session_scheduler.Sql.{count_where, update_where, select, delete_where, first_where}
use session_scheduler.Errors.{
  should_retry, err_or_retry, all_whitespace, all_whitespace_codes, codes, is_space,
  is_email_address, email_local, email_label, email_rest, is_local, is_label, is_domain,
  is_alphanumeric,
}
use session_scheduler.Tx.{
  ok, is_busy, exec_loop, update, tx_loop, tx_loop_from, tx_round, exec, ◌>>=◌, ◌>>◌, or_retry,
  pure, throw, get_row, query, expect_one,
}
use session_scheduler.Db.Tables.{
  insert_user, upsert_interest, delete_interest, delete_possible_slots, delete_schedule,
  delete_discussions, delete_users,
}
use session_scheduler.Db.{User, Discussion, Db}
use session_scheduler.Db.Keys.{is_user, is_discussion, has_user}
use session_scheduler.User.{password_length, interest_max, tz_value}
use session_scheduler.User.Register.{
  new_user, prepare_user, choose_password, set_default_location, check_password,
}
use session_scheduler.User.Register.Laws.{IsRegistered, new_user_registers}
use session_scheduler.User.Interest.{set_interest, set_interest_tx, store_interest}
use session_scheduler.User.Interest.Laws.{IsStored, set_interest_reads_back}
use session_scheduler.User.Update.{
  user_update, password_change, apply_change, store_profile, update_users,
}
use session_scheduler.User.Update.Laws.{
  OnlyProfile, changed, user_update-OnlyProfile, user_update_password,
}
use session_scheduler.User.Delete.{delete_user, delete_user_tx, is_discussion_of}
use session_scheduler.User.Delete.Laws.{without_user, delete_user_exact, delete_user_total}
use session_scheduler.Discussion.Create.{check_discussion_params, user_is_verified}
use session_scheduler.Discussion.Update.{
  discussion_update, discussion_update_tx, owner_info, next_owner_is_verified, take_over,
  update_discussion,
}
use session_scheduler.Discussion.Update.Laws.{IsUpdated, HandsOver, discussion_update_stores}
use session_scheduler.Discussion.Delete.{
  delete_discussion, delete_discussion_tx, delete_discussion_common,
}
use session_scheduler.Discussion.Delete.Laws.{without_discussions, delete_discussion_exact}
use session_scheduler.Examples.{quiet, contended, ann, bob, talk, chat, event, plain}

delete_user_exact_example :
    (count_where (is_user "bob") event.users ≡ 1)
    × (without_user "bob" event ≡ without_user "bob" event)
unfolding delete_user delete_user_tx is_discussion_of delete_discussion_common delete_interest
    delete_possible_slots delete_schedule delete_discussions delete_users tx_loop tx_loop_from
    tx_round exec ◌>>=◌ ◌>>◌ or_retry pure throw get_row query expect_one should_retry err_or_retry
    select delete_where first_where count_where
delete_user_exact_example =
    delete_user_exact "bob" (contended ∷ quiet ∷ []) event (without_user "bob" event) refl

delete_user_total_example :
    delete_user "bob" (quiet ∷ []) event ≡ some (ok tt, without_user "bob" event)
unfolding count_where select
delete_user_total_example = delete_user_total "bob" quiet [] event refl refl refl refl

delete_discussion_exact_example :
    (count_where (is_discussion "talk") event.discussions ≡ 1)
    × (without_discussions (λ x. x == "talk") event ≡ without_discussions (λ x. x == "talk") event)
unfolding delete_discussion delete_discussion_tx delete_discussion_common delete_interest
    delete_possible_slots delete_schedule delete_discussions delete_users tx_loop tx_loop_from
    tx_round exec ◌>>=◌ ◌>>◌ or_retry pure throw get_row query expect_one should_retry err_or_retry
    select delete_where first_where count_where
delete_discussion_exact_example =
    delete_discussion_exact "talk" (contended ∷ quiet ∷ []) event
      (without_discussions (λ x. x == "talk") event) refl

set_interest_reads_back_example :
    (n : ℕ) × (pos 0 ≡ pos n)
    × (n ≤ interest_max)
    × IsStored "bob" "talk" n event (record event {
      interest = record { user_id = "bob"; discussion_id = "chat"; interest = 100 } ∷ [];
    })
unfolding set_interest store_interest exec_loop should_retry delete_interest delete_where select
set_interest_reads_back_example =
    set_interest_reads_back bob talk (pos 0) (some is_busy ∷ none ∷ []) event
      (record event {
        interest = record { user_id = "bob"; discussion_id = "chat"; interest = 100 } ∷ [];
      })
      refl

abbrev carol : User
carol = record {
  user_id = "";
  hashed_password = "";
  username = "Carol";
  is_admin = false;
  is_verified = false;
  location = none;
  real_name = "";
  email = "";
  company = "";
  description = "";
}

abbrev carol_stored : User
carol_stored = record carol {
  user_id = "carol";
  hashed_password = "password";
  location = some "UTC";
}

new_user_registers_example :
    IsRegistered plain "carol" "password" carol carol_stored
    × (any (λ (v : User). v.username == "Carol") event.users ≡ false)
    × (has_user "carol" event ≡ false)
    × (record event { users = event.users ++ carol_stored ∷ [] }
        ≡ record event { users = event.users ++ carol_stored ∷ [] })
unfolding new_user prepare_user choose_password set_default_location exec_loop should_retry
    insert_user all_whitespace all_whitespace_codes codes is_space is_email_address email_local
    email_label email_rest is_local is_label is_domain is_alphanumeric tz_value
new_user_registers_example =
    new_user_registers plain "UTC" "carol" "salt" "password" carol (none ∷ []) event
      (record event { users = event.users ++ carol_stored ∷ [] }) carol_stored refl

abbrev bob_next : User
bob_next = record bob { real_name = "Robert"; username = "Mallory"; is_admin = true }

abbrev bob_after : User
bob_after = record bob { real_name = "Robert"; hashed_password = "longer" }

abbrev event_after : Db
event_after = record event { users = ann ∷ bob_after ∷ [] }

user_update-OnlyProfile_example : OnlyProfile "bob" event event_after
unfolding user_update password_change apply_change store_profile update_users update update_where
    count_where select tz_value exec_loop should_retry
user_update-OnlyProfile_example =
    user_update-OnlyProfile plain "salt" bob_next bob "secret" "longer" (some is_busy ∷ none ∷ [])
      event event_after (ok (record bob_next { hashed_password = "longer" })) refl

user_update_password_example :
    (◌≡◌ {A = String} "secret" "" × (event_after ≡ event))
    ⊎ ((plain.compare bob.hashed_password "secret" ≡ true)
        × (password_length ≤ 6)
        × (check_password plain (record bob_next { hashed_password = "longer" }) "longer" ≡ true)
        × (count_where (is_user "bob") event.users ≡ 1)
        × (event_after.users
            ≡ update_where (is_user "bob") (changed (some "longer") bob_next) event.users))
unfolding user_update password_change apply_change store_profile update_users update update_where
    count_where select tz_value exec_loop should_retry
user_update_password_example =
    user_update_password plain "salt" bob_next bob "secret" "longer" (none ∷ []) event event_after
      (record bob_next { hashed_password = "longer" }) (λ h. cc) refl

abbrev plan : Discussion
plan = record {
  discussion_id = "";
  owner = "bob";
  title = "P";
  description = "Q";
  approved_title = "";
  approved_description = "";
  is_public = true;
}

abbrev plan_stored : Discussion
plan_stored = record plan { discussion_id = "plan"; is_public = false }

abbrev event_planned : Db
event_planned = record event {
  discussions = event.discussions ++ plan_stored ∷ [];
  interest =
      event.interest ++ record { user_id = "bob"; discussion_id = "plan"; interest = 100 } ∷ [];
}

-- The discussion goes from a user who is verified to one who is not.
abbrev talk_next : Discussion
talk_next = record talk { owner = "bob"; title = "T2" }

abbrev event_moved : Db
event_moved = record event {
  discussions = record talk { owner = "bob"; title = "T2"; is_public = false } ∷ chat ∷ [];
  interest =
      record { user_id = "bob"; discussion_id = "talk"; interest = 100 }
      ∷ record { user_id = "bob"; discussion_id = "chat"; interest = 100 }
      ∷ [];
}

discussion_update_stores_example :
    (check_discussion_params talk_next ≡ none)
    × ((b : Bool) × IsUpdated talk_next b event event_moved × HandsOver talk_next event event_moved)
unfolding check_discussion_params all_whitespace all_whitespace_codes codes is_space
    discussion_update discussion_update_tx owner_info next_owner_is_verified take_over
    update_discussion user_is_verified set_interest_tx upsert_interest update_where tx_loop
    tx_loop_from tx_round exec ◌>>=◌ ◌>>◌ or_retry pure throw get_row query expect_one should_retry
    err_or_retry select delete_where first_where count_where
discussion_update_stores_example =
    discussion_update_stores talk_next (contended ∷ quiet ∷ []) event event_moved refl

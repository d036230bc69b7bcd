-- ===== src/Examples/Started.antt =====
-- The start of the program, on an event without an administrator's account.
use session_scheduler.Base.{refl, none, some, [], ◌∷◌, ◌++◌, ◌⊎◌}
use session_scheduler.Sql.{first_where}
use session_scheduler.Errors.{
  should_retry, all_whitespace, all_whitespace_codes, codes, is_space, is_email_address,
  email_local, email_label, email_rest, is_local, is_label, is_domain, is_alphanumeric,
}
use session_scheduler.Tx.{exec_loop, get_row}
use session_scheduler.Tx.{is_busy}
use session_scheduler.Db.{User, Db}
use session_scheduler.Db.Tables.{insert_user}
use session_scheduler.User.{tz_value}
use session_scheduler.User.Find.{user_find_by_username}
use session_scheduler.User.Register.{new_user, prepare_user, choose_password, set_default_location}
use session_scheduler.User.Setup.{new_admin, use_admin, handle_admin_pwd}
use session_scheduler.User.Setup.Laws.{IsKept, IsMade, handle_admin_pwd-IsSetUp}
use session_scheduler.Examples.{event, plain}

abbrev admin : User
admin = record new_admin {
  user_id = "root";
  hashed_password = "Zz0Zz1Zz2Zz3";
  location = some "UTC";
}

abbrev event_started : Db
event_started = record event { users = event.users ++ admin ∷ [] }

-- No password is given, so that the one drawn is stored; the database is busy once.
handle_admin_pwd-IsSetUp_example :
    IsKept plain "" event event_started ⊎ IsMade plain "" event event_started "Zz0Zz1Zz2Zz3"
unfolding handle_admin_pwd use_admin user_find_by_username first_where get_row new_user prepare_user
    choose_password set_default_location exec_loop should_retry insert_user all_whitespace
    all_whitespace_codes codes is_space is_email_address email_local email_label email_rest is_local
    is_label is_domain is_alphanumeric tz_value
handle_admin_pwd-IsSetUp_example =
    handle_admin_pwd-IsSetUp plain "UTC" "root" "salt" "Zz0Zz1Zz2Zz3" (λ e. cc) "" (none ∷ []) event
      event_started (some is_busy ∷ none ∷ []) refl

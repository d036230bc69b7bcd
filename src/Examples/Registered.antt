-- ===== src/Examples/Registered.antt =====
-- Registering, configuring and looking at a discussion.
use session_scheduler.Base.{
  ◌*◌, ◌≡◌, ◌⊎◌, refl, String, true, false, none, some, List, [], ◌∷◌, ◌++◌, ◌==◌, string_key,
  if◌then◌else◌,
}
use session_scheduler.Sql.{first_where, select, order_by, insert_ordered, count_where, update_where}
use session_scheduler.Errors.{
  is_validation_error, should_retry, err_or_retry, all_whitespace, all_whitespace_codes, codes,
  is_space, is_email_address, email_local, email_label, is_local, is_label, is_alphanumeric,
}
use session_scheduler.Tx.{update}
use session_scheduler.Tx.{
  ok, exec, query, get_row, pure, ◌>>=◌, ◌>>◌, or_retry, tx_round, tx_loop, tx_loop_from, exec_loop,
}
use session_scheduler.Tx.Variable.{tx_loop_var, tx_loop_var_from, assigned, get_row_into}
use session_scheduler.Db.{User, Discussion, Db, empty}
use session_scheduler.Db.Tables.{insert_user, insert_discussion, upsert_interest}
use session_scheduler.Keyvalue.{get, get_bool_def}
use session_scheduler.Sessions.{new_session, save, second}
use session_scheduler.User.{tz_value}
use session_scheduler.User.Find.{zero_user, user_get_tx}
use session_scheduler.User.Interest.{set_interest_tx}
use session_scheduler.User.Register.{new_user, prepare_user, choose_password, set_default_location}
use session_scheduler.Discussion.Create.{
  check_discussion_params, check_discussion_limit, user_is_verified, new_discussion,
  new_discussion_tx,
}
use session_scheduler.Discussion.Possible.{
  possible_slots, possible_slots_db_to_display, discussion_get_possible_slots_tx,
}
use session_scheduler.Discussion.Full.{
  DiscussionFull, zero_location, schedule_info, read_slots, read_schedule, read_owner,
  discussion_find_by_id_full_tx, discussion_find_by_id_full,
}
use session_scheduler.Discussion.Moderation.{Reach, here, next, elsewhere, create, moderate}
use session_scheduler.Discussion.Update.{discussion_set_public, update_approval}
use session_scheduler.Web.{World, Request, Driver}
use session_scheduler.Web.Form.{parse_profile}
use session_scheduler.Web.SignIn.{handle_user_create, form_user, check_code}
use session_scheduler.Web.SignIn.Registration.{IsNewcomer, handle_user_create-IsNewcomer}
use session_scheduler.Web.Display.{DiscussionDisplay, discussion_get_display, shown}
use session_scheduler.Web.Display.Laws.{ShowsApproved, outsiders_see_approved}
use session_scheduler.Web.Admin.{set_status}
use session_scheduler.Web.Admin.Sent.{all_known}
use session_scheduler.Web.Admin.Laws.{HasStatuses, no_faults, set_status-HasStatuses}
use session_scheduler.Examples.{quiet, contended, bob, event, plain}

abbrev calm : Driver
calm = record {
  now = 50 * second;
  session = record { find = none; delete = none; save = none };
  user = quiet ∷ [];
  target = quiet ∷ [];
  flag = none;
  code = none;
  change = quiet ∷ [];
  tries = none ∷ [];
  slots = quiet ∷ [];
}

abbrev site : World
site = record { event = event; kvs = ("ServeVerificationCode", "xen") ∷ []; sessions = [] }

abbrev form : String → List String
form key =
    if key == "Username"
    then "Cy" ∷ []
    else if key == "Password"
    then "longer" ∷ []
    else if key == "Vcode"
    then "xen" ∷ []
    else if key == "status"
    then "websiteActive" ∷ "vcodeSent" ∷ []
    else []

abbrev request : Request
request = record { cookie = none; itype = ""; uid = ""; action = ""; form = form }

abbrev cy : User
cy = record zero_user {
  user_id = "usr_c";
  hashed_password = "longer";
  username = "Cy";
  is_verified = true;
  location = some "UTC";
}

abbrev site_after : World
site_after = record site {
  event = record event { users = event.users ++ cy ∷ [] };
  sessions = record { id = "s9"; user_id = "usr_c"; expiry_ts = 259250 } ∷ [];
}

handle_user_create-IsNewcomer_example :
    (u : User) × IsNewcomer plain "usr_c" "s9" request [] site_after u
unfolding handle_user_create form_user parse_profile check_code get get_bool_def new_user
    prepare_user choose_password set_default_location all_whitespace all_whitespace_codes codes
    is_space is_email_address email_local email_label is_local is_label is_alphanumeric tz_value
    insert_user exec_loop new_session save is_validation_error
handle_user_create-IsNewcomer_example =
    handle_user_create-IsNewcomer plain (λ name. some name) "UTC" "usr_c" "salt" "s9" request calm
      site site_after [] (λ e. cc) refl

set_status-HasStatuses_example :
    ((all_known (request.form "status") ≡ true)
      × HasStatuses
          (request.form "status")
          "ServeVerificationCode"
          site
          (set_status no_faults request site).1)
    ⊎ ((all_known (request.form "status") ≡ false) × ((set_status no_faults request site).1 ≡ site))
set_status-HasStatuses_example =
    set_status-HasStatuses request site "ServeVerificationCode" (λ e. cc) (λ e. cc) (λ e. cc)
      (λ e. cc)

-- A discussion that is proposed and then approved.
abbrev talk : Discussion
talk = record {
  discussion_id = "plan";
  owner = "bob";
  title = "P";
  description = "Q";
  approved_title = "";
  approved_description = "";
  is_public = false;
}

abbrev approved : Discussion
approved = record talk { approved_title = "P"; approved_description = "Q"; is_public = true }

abbrev registered : Db
registered = record empty { users = bob ∷ [] }

abbrev proposed : Db
proposed = record registered {
  discussions = talk ∷ [];
  interest = record { user_id = "bob"; discussion_id = "plan"; interest = 100 } ∷ [];
}

abbrev published : Db
published = record proposed { discussions = approved ∷ [] }

abbrev full : DiscussionFull
full = record {
  discussion = approved;
  owner_info = bob;
  location = zero_location;
  time = none;
  is_final = false;
  possible_slots = [];
}

abbrev display : DiscussionDisplay
display = record (shown full) { title_display = "P"; description_raw = "Q" }

published-Reach : Reach published
unfolding empty check_discussion_params all_whitespace all_whitespace_codes codes is_space
    new_discussion new_discussion_tx check_discussion_limit user_is_verified set_interest_tx
    insert_discussion upsert_interest tx_loop tx_loop_from tx_round exec ◌>>=◌ ◌>>◌ or_retry pure
    query get_row should_retry err_or_retry first_where count_where select discussion_set_public
    update_approval exec_loop update update_where
published-Reach =
    next
      (next (next {db' = registered} here (elsewhere refl))
        (create "plan" talk (contended ∷ quiet ∷ []) (ok talk) refl))
      (moderate "plan" true (none ∷ []) (ok tt) refl)

outsiders_see_approved_example : ShowsApproved approved display
unfolding discussion_find_by_id_full discussion_find_by_id_full_tx read_owner read_schedule
    read_slots schedule_info user_get_tx get_row_into get_row query first_where exec pure ◌>>=◌
    discussion_get_possible_slots_tx possible_slots possible_slots_db_to_display order_by
    insert_ordered select tx_loop_var tx_loop_var_from assigned tx_round discussion_get_display
    empty
outsiders_see_approved_example =
    outsiders_see_approved published published "plan" (quiet ∷ []) full 0 [] none display
      published-Reach refl refl refl

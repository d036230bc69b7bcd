-- ===== src/Examples/Offered.antt =====
-- Requests that create a discussion and a location.
use session_scheduler.Base.{
  refl, inl, true, none, some, [], ◌∷◌, ◌++◌, ◌==◌, string_key, if◌then◌else◌, ◌⊎◌,
}
use session_scheduler.Sql.{first_where, select, count_where, delete_where}
use session_scheduler.Errors.{
  should_retry, err_or_retry, all_whitespace, all_whitespace_codes, codes, is_space,
}
use session_scheduler.Tx.{
  exec, query, get_row, pure, throw, ◌>>=◌, ◌>>◌, or_retry, tx_round, tx_loop, tx_loop_from,
}
use session_scheduler.Tx.Variable.{tx_loop_var, tx_loop_var_from, assigned, get_row_into}
use session_scheduler.Db.{Discussion}
use session_scheduler.Db.Tables.{insert_discussion, upsert_interest}
use session_scheduler.Keyvalue.{get, get_bool_def, string_to_bool}
use session_scheduler.Sessions.{request_session, find, is_expired}
use session_scheduler.User.Find.{user_find, user_find_tx, user_get_tx}
use session_scheduler.User.Interest.{set_interest_tx}
use session_scheduler.Discussion.Create.{
  check_discussion_params, check_discussion_limit, user_is_admin, user_is_verified, new_discussion,
  new_discussion_tx,
}
use session_scheduler.Discussion.Full.{zero_discussion}
use session_scheduler.Web.{World, Request, redirect, request_user, after_change, is_verified}
use session_scheduler.Web.Create.{
  get_url, answer_created, must_verify, create_for, handle_discussion_create,
}
use session_scheduler.Web.Requests.{StoresAreKept}
use session_scheduler.Web.Create.Laws.{IsOffered, handle_discussion_create-EitherWay}
use session_scheduler.Sql.{max_of}
use session_scheduler.Db.Tables.{insert_location}
use session_scheduler.Location.{check_location_params, new_location, new_location_tx}
use session_scheduler.Web.{is_admin}
use session_scheduler.Web.Form.{atoi, atoi_codes, unsigned, digits}
use session_scheduler.Web.Admin.{test_action}
use session_scheduler.Web.Admin.Laws.{no_faults}
use session_scheduler.Web.Admin.Actions.{
  AdminFaults, read_location, use_location, location_answer, admin_action, handle_admin_action,
}
use session_scheduler.Web.Admin.Actions.Laws.{IsDoneForAdmin, administrators_act}
use session_scheduler.Examples.{ann, bob, event, unsorted}
use session_scheduler.Examples.Served.{calm, site}

abbrev offer : Request
offer = record {
  cookie = some "b1";
  itype = "";
  uid = "";
  action = "";
  form = λ key. if key == "title" then "P" ∷ [] else if key == "description" then "Q" ∷ [] else [];
}

abbrev offered : Discussion
offered = record zero_discussion {
  discussion_id = "plan";
  owner = "bob";
  title = "P";
  description = "Q";
}

abbrev site_offered : World
site_offered = record site {
  event = record event {
    discussions = event.discussions ++ offered ∷ [];
    interest =
        event.interest ++ record { user_id = "bob"; discussion_id = "plan"; interest = 100 } ∷ [];
  };
}

handle_discussion_create-EitherWay_example :
    StoresAreKept site site_offered
    ⊎ IsOffered "plan" offer calm
        (redirect "/uid/discussion/plan/view?flash=Session+Created")
        site
        site_offered
unfolding handle_discussion_create create_for must_verify answer_created get_url after_change
    is_verified get_bool_def get string_to_bool request_user request_session find first_where
    is_expired user_find user_find_tx user_get_tx get_row_into tx_loop_var tx_loop_var_from assigned
    check_discussion_params all_whitespace all_whitespace_codes codes is_space new_discussion
    new_discussion_tx check_discussion_limit user_is_admin user_is_verified set_interest_tx
    insert_discussion upsert_interest tx_loop tx_loop_from tx_round exec ◌>>=◌ ◌>>◌ or_retry pure
    throw get_row query should_retry err_or_retry select delete_where count_where
handle_discussion_create-EitherWay_example =
    handle_discussion_create-EitherWay "plan" offer calm
      (redirect "/uid/discussion/plan/view?flash=Session+Created") site site_offered refl

-- Ann, an administrator, adds a location.
abbrev extend : Request
extend = record {
  cookie = some "a1";
  itype = "";
  uid = "";
  action = "newLocation";
  form = λ key.
      if key == "locName" then "Attic" ∷ [] else if key == "locCapacity" then "30" ∷ [] else [];
}

abbrev site_of_ann : World
site_of_ann = record site {
  event = record event { users = record ann { is_admin = true } ∷ bob ∷ [] };
  sessions = record { id = "a1"; user_id = "ann"; expiry_ts = 100 } ∷ [];
}

abbrev site_extended : World
site_extended = record site_of_ann {
  event = record site_of_ann.event {
    locations =
        event.locations
        ++ record {
          location_id = 2;
          location_name = "Attic";
          location_url = "";
          is_place = true;
          capacity = 30;
        }
          ∷ [];
  };
}

abbrev quiet_faults : AdminFaults
quiet_faults = record { reading = []; writing = []; code = none; statuses = no_faults }

administrators_act_example :
    StoresAreKept site_of_ann site_extended
    ⊎ (IsDoneForAdmin
          (admin_action (λ x y. true) unsorted quiet_faults extend calm)
          calm
          extend
          (redirect "locations")
          site_of_ann
          site_extended
        ⊎ IsDoneForAdmin
            (λ v. some (test_action none none extend v))
            calm
            extend
            (redirect "locations")
            site_of_ann
            site_extended)
unfolding handle_admin_action admin_action use_location read_location location_answer after_change
    atoi atoi_codes unsigned digits codes is_admin request_user request_session find first_where
    is_expired user_find user_find_tx user_get_tx get_row_into tx_loop_var tx_loop_var_from assigned
    check_location_params new_location new_location_tx max_of insert_location tx_loop tx_loop_from
    tx_round exec ◌>>=◌ or_retry pure get_row query should_retry err_or_retry
administrators_act_example =
    administrators_act (λ x y. true) unsorted quiet_faults none none extend calm
      (redirect "locations") site_of_ann site_extended (inl refl)

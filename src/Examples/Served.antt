-- ===== src/Examples/Served.antt =====
-- Requests to the web application.
use session_scheduler.Base.{
  ◌*◌, ◌≡◌, ◌≢◌, refl, String, true, none, some, List, [], ◌∷◌, ◌==◌, string_key, if◌then◌else◌,
  ◌||◌, ◌⊎◌,
}
use session_scheduler.Sql.{first_where, select, update_where, count_where}
use session_scheduler.Errors.{is_validation_error}
use session_scheduler.Tx.{ok, exec, get_row, tx_round, exec_loop, update}
use session_scheduler.Tx.Variable.{tx_loop_var, tx_loop_var_from, assigned, get_row_into}
use session_scheduler.Db.{User}
use session_scheduler.Keyvalue.{get, get_bool_def, string_to_bool}
use session_scheduler.Sessions.{
  SessionFaults, request_session, find, is_expired, find_or_create_session, second,
}
use session_scheduler.User.{tz_value}
use session_scheduler.User.Find.{
  user_find, user_find_tx, user_get_tx, may_edit_user, user_find_by_username,
}
use session_scheduler.User.Register.{check_password}
use session_scheduler.User.Update.{
  user_update, password_change, apply_change, store_profile, update_users,
}
use session_scheduler.Web.{
  World, Request, Driver, redirect, request_user, after_change, is_admin, flag_active,
}
use session_scheduler.Web.Form.{parse_profile}
use session_scheduler.Web.Requests.{IsSignedIn, request_user-IsSignedIn}
use session_scheduler.Web.Uid.{handle_uid_post, post_uid, user_action, post_user_edit}
use session_scheduler.Web.Uid.Laws.{WorldIsSpared}
use session_scheduler.Web.Uid.Access.{handle_uid_post_spares}
use session_scheduler.Web.SignIn.{handle_session_create, find_user}
use session_scheduler.Web.SignIn.Laws.{IsKnown, handle_session_create_admits}
use session_scheduler.Web.Middleware.{Middleware, serve_http}
use session_scheduler.Web.Middleware.Laws.{as_met_by, serve_http_guards}
use session_scheduler.Examples.{apart, quiet, ann, bob, talk, event, plain}

abbrev smooth : SessionFaults
smooth = record { find = none; delete = none; save = none }

abbrev pub calm : Driver
calm = record {
  now = 50 * second;
  session = smooth;
  user = quiet ∷ [];
  target = quiet ∷ [];
  flag = none;
  code = none;
  change = quiet ∷ [];
  tries = none ∷ [];
  slots = quiet ∷ [];
}

abbrev pub site : World
site = record {
  event = event;
  kvs = ("ServeActive", "true") ∷ [];
  sessions = record { id = "b1"; user_id = "bob"; expiry_ts = 100 } ∷ [];
}

-- Bob fills in his own profile.
abbrev form : String → List String
form key =
    if key == "RealName"
    then "Robert" ∷ []
    else if key == "username"
    then "Bob" ∷ []
    else if key == "password"
    then "secret" ∷ []
    else []

abbrev request : Request
request = record { cookie = some "b1"; itype = "user"; uid = "self"; action = "edit"; form = form }

abbrev robert : User
robert = record bob { real_name = "Robert" }

abbrev site_after : World
site_after = record site { event = record event { users = ann ∷ robert ∷ [] } }

request_user-IsSignedIn_example :
    IsSignedIn calm request bob site × (bob.user_id ≢ "") × (site ≡ site)
unfolding request_user request_session find first_where is_expired user_find user_find_tx
    user_get_tx get_row_into get_row exec tx_loop_var tx_loop_var_from assigned tx_round
request_user-IsSignedIn_example = request_user-IsSignedIn request calm site site bob refl

handle_uid_post_spares_example : WorldIsSpared "ann" "talk" site site_after
unfolding handle_uid_post post_uid user_action post_user_edit parse_profile after_change
    may_edit_user user_update password_change apply_change store_profile update_users update
    update_where count_where select tz_value exec_loop request_user request_session find first_where
    is_expired user_find user_find_tx user_get_tx get_row_into get_row exec tx_loop_var
    tx_loop_var_from assigned tx_round
handle_uid_post_spares_example =
    handle_uid_post_spares plain "salt" (λ name. some name) (ok tt) request calm (redirect "view")
      site site site_after bob "ann" "talk" talk refl refl (apart "ann" "bob" refl) refl
      (apart "ann" "bob" refl) refl

-- Bob signs in; the site is open, and his session is still good.
handle_session_create_admits_example :
    ((site.sessions ≡ site.sessions)
      ⊎ ((u : User) × IsKnown plain "Bob" "secret" site.event u
          × ((get_bool_def none flag_active site.kvs || u.is_admin) ≡ true)))
    × (site.kvs ≡ site.kvs)
unfolding handle_session_create find_user find_or_create_session request_session find first_where
    is_expired get_bool_def get string_to_bool is_validation_error user_find_by_username exec_loop
    get_row check_password
handle_session_create_admits_example =
    handle_session_create_admits plain (λ next. some next) "s9" request calm site site
      (redirect "/?flash=Signed+in") refl

-- A handler for administrators and one that wants a login, asked for by somebody not signed in.
abbrev routers : Middleware
routers = record {
  always = none;
  active = none;
  user_auth = some (λ w. some (redirect "view", w));
  admin = some (λ w. some (redirect "console", w));
}

abbrev stranger : Request
stranger = record request { cookie = none }

serve_http_guards_example :
    serve_http "/login" routers stranger calm calm site
    ≡ serve_http "/login" (as_met_by "/login" none routers) stranger calm calm site
unfolding request_user request_session find first_where is_expired is_admin
serve_http_guards_example =
    serve_http_guards "/login" routers stranger calm calm site site site none none refl refl refl
      refl

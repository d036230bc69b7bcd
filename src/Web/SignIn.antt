-- ===== src/Web/SignIn.antt =====
-- Signing in and out and registering (handle_session.go, handle_user.go).
-- `sid` is the identifier that a new session draws, `unescape` url.QueryUnescape.
pub mod Laws
pub mod Registration
use session_scheduler.Base.{
  String, Bool, true, false, not, ◌&&◌, Option, none, some, List, ◌==◌, string_key, if◌then◌else◌,
}
use Prim.Native.String.{◌++◌}
use session_scheduler.Errors.{Error, internal, message, credentials_incorrect, is_validation_error}
use session_scheduler.Tx.{Res, ok, err, Fault}
use session_scheduler.Db.{User, Db}
use session_scheduler.Keyvalue.{get, get_bool_def}
use session_scheduler.Sessions.{
  Session, SessionRows, SignIn, Cookie, find_or_create_session, new_session,
  delete_session_by_request,
}
use session_scheduler.User.{Bcrypt}
use session_scheduler.User.Register.{check_password, new_user}
use session_scheduler.User.Find.{zero_user, user_find_by_username}
use session_scheduler.Web.{
  World, Request, Driver, Response, redirect, render, render_error, panics, form_value, flag_active,
  flag_require_verification, verification_code,
}
use session_scheduler.Web.Form.{parse_profile}

-- The same error for no user and for a wrong password.
abbrev pub check_found : Bcrypt → String → Option User × (Res (Unit {0}) × Db) → Res User × Db
check_found crypt password (user, (err e, db)) = (err internal, db)
check_found crypt password (none, (ok u, db)) = (err credentials_incorrect, db)
check_found crypt password (some user, (ok u, db)) =
    (if check_password crypt user password then ok user else err credentials_incorrect, db)

abbrev pub check_lookup :
    Bcrypt → String → Option (Option User × (Res (Unit {0}) × Db)) → Option (Res User × Db)
check_lookup crypt password none = none
check_lookup crypt password (some x) = some (check_found crypt password x)

unfoldable pub find_user :
    Bcrypt → (username password : String) → List (Option Fault) → Db → Option (Res User × Db)
unfolding user_find_by_username check_password
find_user crypt username password fs db =
    check_lookup crypt password (user_find_by_username username fs db)

abbrev pub unescaped : Option String → String
unescaped none = "/"
unescaped (some next) = next

-- Where the browser goes after a sign-in.
abbrev pub next_page : (String → Option String) → String → Response
next_page unescape next =
    redirect ((if next == "" then "/" else unescaped (unescape next)) ++ "?flash=Signed+in")

abbrev pub answer_session : (String → Option String) → Request → Res (Unit {0}) → Response
answer_session unescape req (ok u) = next_page unescape (form_value req "next")
answer_session unescape req (err e) = panics e

abbrev pub start_session :
    (String → Option String)
    → (sid : String) → Request
    → Driver
    → World
    → SignIn × SessionRows
    → Response × World
start_session unescape sid req dr w (a, rows) =
    (answer_session unescape req a.result, record w { sessions = rows })

abbrev pub use_found_user :
    (String → Option String)
    → (sid : String) → Request
    → Driver
    → World
    → Option (Res User × Db)
    → Option (Response × World)
use_found_user unescape sid req dr w none = none
use_found_user unescape sid req dr w (some (err e, db)) = some (
  if is_validation_error (some e) then render_error "sessions/new" e else panics e,
  record w { event = db },
)
use_found_user unescape sid req dr w (some (ok user, db)) =
    let session =
      start_session unescape sid req dr (record w { event = db })
        (find_or_create_session dr.session dr.now dr.now req.cookie sid user.user_id w.sessions) in
    some (
      if not (get_bool_def dr.flag flag_active w.kvs) && not user.is_admin
      then (redirect "/login?flash=Website+Inactive", record w { event = db })
      else session)

unfoldable pub handle_session_create :
    Bcrypt
    → (String → Option String)
    → (sid : String) → Request
    → Driver
    → World
    → Option (Response × World)
unfolding find_user find_or_create_session get_bool_def is_validation_error
handle_session_create crypt unescape sid req dr w =
    use_found_user unescape sid req dr w
      (find_user crypt (form_value req "username") (form_value req "password") dr.tries w.event)

abbrev pub answer_sign_out : Res (Unit {0}) → Response
answer_sign_out (ok u) = render "sessions/destroy"
answer_sign_out (err e) = panics e

unfoldable pub handle_session_destroy : Request → Driver → World → Response × World
unfolding delete_session_by_request
handle_session_destroy req dr w =
    let (result, rows) = delete_session_by_request dr.session dr.now req.cookie w.sessions in
    (answer_sign_out result, record w { sessions = rows })

abbrev pub use_code : Request → Driver → World → User → Res String → Res User
use_code req dr w user (err e) = err (message "Internal error")
use_code req dr w user (ok evcode) =
    if form_value req "Vcode" == evcode
    then ok (record user { is_verified = true })
    else if get_bool_def dr.flag flag_require_verification w.kvs
    then err (message "Incorrect Verification Code")
    else ok user

-- Whether the user of the form gets in, and as one that is verified.
unfoldable pub check_code : Request → Driver → World → User → Res User
unfolding get get_bool_def
check_code req dr w user = use_code req dr w user (get dr.code verification_code w.kvs)

abbrev pub answer_new : Res (Unit {0}) → Response
answer_new (ok u) = redirect "/?flash=User+created"
answer_new (err e) = panics e

abbrev pub after_session :
    World → (Session × Cookie × Res (Unit {0})) × SessionRows → Response × World
after_session w ((session, cookie, result), rows) =
    (answer_new result, record w { sessions = rows })

abbrev pub use_new_user :
    (sid : String) → Driver → World → Option (Res User × Db) → Option (Response × World)
use_new_user sid dr w none = none
use_new_user sid dr w (some (err e, db)) = some (
  if is_validation_error (some e) then render_error "user/new" e else panics e,
  record w { event = db },
)
use_new_user sid dr w (some (ok u, db)) = some (
    after_session (record w { event = db })
      (new_session dr.session dr.now sid u.user_id w.sessions))

module _ (crypt : Bcrypt) (load_location : String → Option String)
    (default_location uid salt sid : String) where
  -- The user as the form has it.
  unfoldable pub form_user : Request → User
  unfolding parse_profile
  form_user req =
      parse_profile load_location req (record zero_user { username = form_value req "Username" })

  abbrev pub create_user : Request → Driver → World → Res User → Option (Response × World)
  create_user req dr w (err e) = some (render_error "user/new" e, w)
  create_user req dr w (ok user) =
      use_new_user sid dr w
        (new_user crypt default_location uid salt (form_value req "Password") user dr.tries w.event)

  unfoldable pub handle_user_create : Request → Driver → World → Option (Response × World)
  unfolding form_user check_code new_user new_session is_validation_error
  handle_user_create req dr w = create_user req dr w (check_code req dr w (form_user req))

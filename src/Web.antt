-- ===== src/Web.antt =====
-- The web application: the handlers of serve.go's routes as functions from a request and the three
-- stores to a response and the stores after it. `Uid` is HandleUidPost (handle_discussion.go).
-- What a template makes of its data is left out, and what RenderTemplate reads for every page.
-- A handler's result is `none` only when the rounds given to a loop of the event package run out.
pub mod Requests
pub mod Form
pub mod Uid
pub mod SignIn
pub mod Display
pub mod Create
pub mod Admin
pub mod Middleware
use session_scheduler.Base.{
  ℕ, String, Bool, false, ◌&&◌, ◌||◌, Option, none, some, List, [], ◌∷◌, ◌==◌, string_key,
  if◌then◌else◌,
}
use session_scheduler.Errors.{Error}
use session_scheduler.Tx.{Res, ok, err, Fault, Round}
use session_scheduler.Db.{User, Discussion, Db}
use session_scheduler.Keyvalue.{KeyValues}
use session_scheduler.Sessions.{Session, SessionRows, SessionFaults, request_session}
use session_scheduler.User.Find.{user_find, may_edit_user, may_edit_discussion}

pub record World : Type 0 where
  pub event : Db
  pub kvs : KeyValues
  pub sessions : SessionRows

-- The session cookie, the parameters of the route, and the form's values by their key.
pub record Request : Type 0 where
  pub cookie : Option String
  pub itype : String
  pub uid : String
  pub action : String
  pub form : String → List String

abbrev pub first_value : List String → String
first_value [] = ""
first_value (v ∷ vs) = v

-- r.FormValue
abbrev pub form_value : Request → String → String
form_value req key = first_value (req.form key)

-- What the drivers report in one request, by the calls that the handlers make.
pub record Driver : Type 0 where
  pub now : ℕ
  -- sessions.RequestSession, and UserFind in RequestUser
  pub session : SessionFaults
  pub user : List Round
  -- the lookup of what the request is about
  pub target : List Round
  -- GetBoolDef and Get of the configuration
  pub flag : Option Fault
  pub code : Option Fault
  -- the change: its transaction, or the loop round its statement
  pub change : List Round
  pub tries : List (Option Fault)
  -- DiscussionSetPossibleSlots
  pub slots : List Round

-- `silent` is a handler that returns without writing, which the middleware turns into a 404.
pub data Response : Type 0 where
  redirect : String → Response
  render : String → Response
  render_error : String → Error → Response
  panics : Error → Response
  silent : Response
  not_found : Response

abbrev pub flag_active : String
flag_active = "ServeActive"

abbrev pub flag_schedule_active : String
flag_schedule_active = "ServeScheduleActive"

abbrev pub flag_verification_code_sent : String
flag_verification_code_sent = "ServeVerificationCodeSent"

abbrev pub flag_require_verification : String
flag_require_verification = "ServeRequireVerification"

abbrev pub flag_test_mode : String
flag_test_mode = "ServeTestMode"

abbrev pub verification_code : String
verification_code = "ServeVerificationCode"

-- RequestUser's result, or its panic.
pub data Requested : Type 0 where
  requested : Option User → Requested
  user_find_failed : Error → Requested

abbrev pub look_up_user : Option User × (Res (Unit {0}) × Db) → Requested
look_up_user (user, (ok u, db)) = requested user
look_up_user (user, (err e, db)) = user_find_failed e

abbrev pub event_after : Option User × (Res (Unit {0}) × Db) → Db
event_after (user, (r, db)) = db

abbrev pub use_lookup :
    World → Option (Option User × (Res (Unit {0}) × Db)) → Option (Requested × World)
use_lookup w none = none
use_lookup w (some x) = some (look_up_user x, record w { event = event_after x })

abbrev pub find_session_user : Driver → Option Session → World → Option (Requested × World)
find_session_user dr none w = some (requested none, w)
find_session_user dr (some session) w =
    let found = user_find session.user_id dr.user w.event in
    if session.user_id == "" then some (requested none, w) else use_lookup w found

unfoldable pub request_user : Request → Driver → World → Option (Requested × World)
unfolding request_session user_find
request_user req dr w =
    let (session, rows) = request_session dr.session dr.now req.cookie w.sessions in
    find_session_user dr session (record w { sessions = rows })

-- The tests that are safe on nil.
unfoldable pub may_edit_discussion_safe : Option User → Option Discussion → Bool
unfolding may_edit_discussion
may_edit_discussion_safe (some u) (some d) = may_edit_discussion u d
may_edit_discussion_safe (some u) none = false
may_edit_discussion_safe none d = false

unfoldable pub may_edit_user_safe : Option User → Option User → Bool
unfolding may_edit_user
may_edit_user_safe (some u) (some tgt) = may_edit_user u tgt
may_edit_user_safe (some u) none = false
may_edit_user_safe none tgt = false

unfoldable pub is_admin : Option User → Bool
is_admin none = false
is_admin (some u) = u.is_admin

unfoldable pub is_verified : Option User → Bool
is_verified none = false
is_verified (some u) = u.is_verified || u.is_admin

-- What a handler gives, from the result of a change to the event database.
unfoldable pub after_change :
    {A : Type 0} → World → Option (Res A × Db) → (Res A → Response) → Option (Response × World)
after_change w none answer = none
after_change w (some (r, db)) answer = some (answer r, record w { event = db })

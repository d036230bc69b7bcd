-- ===== src/Web/Create.antt =====
-- HandleDiscussionNew and HandleDiscussionCreate (handle_discussion.go).
pub mod Laws
use Prim.Native.String.{◌++◌ as join}
use session_scheduler.Base.{String, Bool, not, ◌&&◌, Option, none, some, string_key, if◌then◌else◌}
use session_scheduler.Errors.{Error, message, is_validation_error}
use session_scheduler.Tx.{Res, ok, err}
use session_scheduler.Db.{User, Discussion, Db}
use session_scheduler.Keyvalue.{get_bool_def}
use session_scheduler.Discussion.Create.{new_discussion}
use session_scheduler.Discussion.Full.{zero_discussion}
use session_scheduler.Web.{
  World, Request, Driver, Response, redirect, render, render_error, panics, form_value,
  request_user, Requested, requested, user_find_failed, is_verified, after_change,
  flag_require_verification,
}

-- An unverified user is led away while verification is required.
unfoldable pub must_verify : Driver → World → Option User → Bool
unfolding get_bool_def is_verified
must_verify dr w cur = get_bool_def dr.flag flag_require_verification w.kvs && not (is_verified cur)

abbrev pub to_profile : Response
to_profile = redirect "/uid/user/self/view"

abbrev pub show_new : Option (Requested × World) → Option (Response × World)
unfolding is_verified
show_new none = none
show_new (some (user_find_failed e, w)) = some (panics e, w)
show_new (some (requested cur, w)) =
    some (if is_verified cur then render "discussion/new" else to_profile, w)

-- Who asks is looked up only while verification is required.
unfoldable pub handle_discussion_new : Request → Driver → World → Option (Response × World)
unfolding get_bool_def request_user
handle_discussion_new req dr w =
    let asked = show_new (request_user req dr w) in
    if get_bool_def dr.flag flag_require_verification w.kvs
    then asked
    else some (render "discussion/new", w)

unfoldable pub get_url : Discussion → String
get_url d = join "/uid/discussion/" (join d.discussion_id "/view")

-- The discussion of the form.
abbrev pub form_discussion : Request → User → Discussion
form_discussion req owner = record zero_discussion {
  owner = owner.user_id;
  title = form_value req "title";
  description = form_value req "description";
}

-- What DiscussionGetDisplayRetry reads for the form that is shown again is left out.
unfoldable pub answer_created : Res Discussion → Response
unfolding get_url is_validation_error
answer_created (ok d) = redirect (join (get_url d) "?flash=Session+Created")
answer_created (err e) =
    if is_validation_error (some e) then render_error "discussion/new" e else panics e

-- Without a user the handler stops at owner.UserID.
abbrev pub no_owner : Error
no_owner = message "invalid memory address or nil pointer dereference"

unfoldable pub create_for :
    (did : String) → Request → Driver → Option (Requested × World) → Option (Response × World)
unfolding must_verify new_discussion after_change answer_created
create_for did req dr none = none
create_for did req dr (some (user_find_failed e, w)) = some (panics e, w)
create_for did req dr (some (requested none, w)) =
    some (if must_verify dr w none then to_profile else panics no_owner, w)
create_for did req dr (some (requested (some owner), w)) =
    let created =
      after_change w (new_discussion did (form_discussion req owner) dr.change w.event)
        answer_created in
    if must_verify dr w (some owner) then some (to_profile, w) else created

-- `did` is what DiscussionID.generate draws.
unfoldable pub handle_discussion_create :
    (did : String) → Request → Driver → World → Option (Response × World)
unfolding create_for request_user
handle_discussion_create did req dr w = create_for did req dr (request_user req dr w)

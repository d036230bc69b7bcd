-- ===== src/Web/Uid.antt =====
-- HandleUidPost (handle_discussion.go): the changes to one user or one discussion.
-- `load_location` is time.LoadLocation, `salt` what bcrypt draws, `named_exec_empty` what
-- sqlx.NamedExec reports for an empty slice.
pub mod Keeps
pub mod Laws
pub mod Access
use session_scheduler.Base.{
  ℕ, String, Bool, true, false, not, ◌&&◌, ◌||◌, Option, none, some, List, ◌==◌, string_key,
  if◌then◌else◌, ℤ, pos, negsuc,
}
use session_scheduler.Errors.{Error, is_validation_error}
use session_scheduler.Tx.{Res, ok, err}
use session_scheduler.Db.{User, Discussion, Db}
use session_scheduler.Keyvalue.{get, get_bool_def, value_of}
use session_scheduler.User.{Bcrypt}
use session_scheduler.User.Find.{user_find, may_edit_user, may_edit_discussion, admin_username}
use session_scheduler.User.Interest.{set_interest}
use session_scheduler.User.Update.{user_update, set_verified}
use session_scheduler.User.Delete.{delete_user}
use session_scheduler.Discussion.Full.{DiscussionFull, discussion_find_by_id_full}
use session_scheduler.Discussion.Update.{discussion_update, discussion_set_public}
use session_scheduler.Discussion.Possible.{discussion_set_possible_slots}
use session_scheduler.Discussion.Delete.{delete_discussion}
use session_scheduler.Web.{
  World, Request, Driver, Response, redirect, render_error, panics, silent, form_value,
  request_user, Requested, requested, user_find_failed, is_verified, after_change,
  flag_require_verification, verification_code,
}
use session_scheduler.Web.Form.{atoi, form_check_to_slot_id, parse_profile}

-- The form's redirectURL, if it has one.
abbrev pub redirect_back : Request → Response
redirect_back req =
    let tmp = form_value req "redirectURL" in redirect (if tmp == "" then "view" else tmp)

abbrev pub back_to_view : {A : Type 0} → Res A → Response
back_to_view r = redirect "view"

abbrev pub use_interest :
    User → Discussion → Request → Driver → World → Option ℤ → Option (Response × World)
use_interest cur d req dr w none = some (silent, w)
use_interest cur d req dr w (some (negsuc n)) = some (silent, w)
use_interest cur d req dr w (some (pos n)) =
    after_change w (set_interest cur d (pos n) dr.tries w.event) (λ r. redirect_back req)

-- action "setinterest"
unfoldable pub post_interest :
    User → Discussion → Request → Driver → World → Option (Response × World)
unfolding set_interest after_change atoi
post_interest cur d req dr w =
    let interest = atoi (form_value req "interest") in
    if cur.username == admin_username
    then some (silent, w)
    else use_interest cur d req dr w interest

-- What the form makes of the discussion; only an administrator names an owner.
abbrev pub discussion_next : User → Request → Discussion → Discussion
discussion_next cur req d = record d {
  title = form_value req "title";
  description = form_value req "description";
  owner = if cur.is_admin then form_value req "owner" else d.owner;
}

module _ (named_exec_empty : Res (Unit {0})) where
  -- The slots are set only for an administrator; an error is logged.
  unfoldable pub post_slots : User → String → Request → Driver → World → Option (Response × World)
  unfolding discussion_set_possible_slots after_change form_check_to_slot_id
  post_slots cur did req dr w =
      if cur.is_admin
      then after_change w
          (discussion_set_possible_slots named_exec_empty did
            (form_check_to_slot_id (req.form "possible")) dr.slots w.event)
          back_to_view
      else some (redirect "view", w)

  abbrev pub after_update :
      User
      → String
      → Request
      → Driver
      → World
      → Option (Res (Unit {0}) × Db)
      → Option (Response × World)
  after_update cur did req dr w none = none
  after_update cur did req dr w (some (ok u, db)) =
      post_slots cur did req dr (record w { event = db })
  after_update cur did req dr w (some (err e, db)) =
      let goes_on = post_slots cur did req dr (record w { event = db }) in
      if is_validation_error (some e)
      then some (render_error "discussion/edit" e, record w { event = db })
      else goes_on

  -- action "edit" of a discussion
  unfoldable pub post_discussion_edit :
      User → Discussion → Request → Driver → World → Option (Response × World)
  unfolding discussion_update post_slots may_edit_discussion get_bool_def is_validation_error
      is_verified
  post_discussion_edit cur d req dr w =
      if not (may_edit_discussion cur d)
      then some (silent, w)
      else if get_bool_def dr.flag flag_require_verification w.kvs && not (is_verified (some cur))
      then some (redirect "/uid/user/self/view", w)
      else after_update cur d.discussion_id req dr w
          (discussion_update (discussion_next cur req d) dr.change w.event)

  -- action "delete" of a discussion
  unfoldable pub post_discussion_delete :
      User → Discussion → Driver → World → Option (Response × World)
  unfolding delete_discussion after_change may_edit_discussion
  post_discussion_delete cur d dr w =
      if not (may_edit_discussion cur d)
      then some (silent, w)
      else after_change w (delete_discussion d.discussion_id dr.change w.event)
          (λ r. redirect "/list/discussion")

  -- action "setpublic"
  unfoldable pub post_public :
      User → Discussion → Request → Driver → World → Option (Response × World)
  unfolding discussion_set_public after_change
  post_public cur d req dr w =
      if not cur.is_admin
      then some (silent, w)
      else after_change w
          (discussion_set_public d.discussion_id (form_value req "newvalue" == "true") dr.tries
            w.event)
          (λ r. redirect_back req)

  unfoldable pub discussion_action :
      User → Discussion → Request → Driver → World → Option (Response × World)
  unfolding post_interest post_discussion_edit post_discussion_delete post_public
  discussion_action cur d req dr w =
      if req.action == "setinterest"
      then post_interest cur d req dr w
      else if req.action == "edit"
      then post_discussion_edit cur d req dr w
      else if req.action == "delete"
      then post_discussion_delete cur d dr w
      else if req.action == "setpublic"
      then post_public cur d req dr w
      else some (silent, w)

abbrev pub answer_edit : Res User → Response
answer_edit (ok u) = redirect "view"
answer_edit (err e) = if is_validation_error (some e) then render_error "user/edit" e else panics e

module _ (crypt : Bcrypt) (salt : String) (load_location : String → Option String) where
  -- action "edit" of a user, on a copy of the user's row
  unfoldable pub post_user_edit : User → User → Request → Driver → World → Option (Response × World)
  unfolding user_update after_change parse_profile is_validation_error
  post_user_edit cur user req dr w =
      after_change w
        (user_update crypt salt (parse_profile load_location req user) cur
          (form_value req "currentPassword") (form_value req "newPassword") dr.tries w.event)
        answer_edit

-- action "setverified"
unfoldable pub post_verified : User → User → Request → Driver → World → Option (Response × World)
unfolding set_verified after_change
post_verified cur user req dr w =
    if not cur.is_admin
    then some (silent, w)
    else after_change w (set_verified user (form_value req "newvalue" == "true") dr.tries w.event)
        (λ r. redirect_back req)

-- action "verify": an error of Get is dropped, and leaves the code "".
unfoldable pub post_verify : User → Request → Driver → World → Option (Response × World)
unfolding set_verified after_change get
post_verify user req dr w =
    if form_value req "Vcode" == value_of (get dr.code verification_code w.kvs)
    then after_change w (set_verified user true dr.tries w.event)
        (λ r. redirect "view?flash=Account+Verified")
    else some (redirect "view?flash=Invalid+Validation+Code", w)

-- action "delete" of a user
unfoldable pub post_user_delete : User → User → Driver → World → Option (Response × World)
unfolding delete_user after_change
post_user_delete cur user dr w =
    if not cur.is_admin
    then some (silent, w)
    else after_change w (delete_user user.user_id dr.change w.event) (λ r. redirect "/list/user")

abbrev pub is_discussion_action : String → Bool
is_discussion_action action =
    action == "setinterest" || action == "edit" || action == "delete" || action == "setpublic"

abbrev pub is_user_action : String → Bool
is_user_action action =
    action == "edit" || action == "setverified" || action == "verify" || action == "delete"

-- "self" stands for the user of the session.
abbrev pub target_id : User → Request → String
target_id cur req = if req.itype == "user" && req.uid == "self" then cur.user_id else req.uid

module _ (crypt : Bcrypt) (salt : String) (load_location : String → Option String)
    (named_exec_empty : Res (Unit {0})) where
  unfoldable pub user_action : User → User → Request → Driver → World → Option (Response × World)
  unfolding may_edit_user post_user_edit post_verified post_verify post_user_delete
  user_action cur user req dr w =
      if not (may_edit_user cur user)
      then some (silent, w)
      else if req.action == "edit"
      then post_user_edit crypt salt load_location cur user req dr w
      else if req.action == "setverified"
      then post_verified cur user req dr w
      else if req.action == "verify"
      then post_verify user req dr w
      else if req.action == "delete"
      then post_user_delete cur user dr w
      else some (redirect "view", w)

  -- The error of the lookup is dropped; what it returns beside it is used.
  abbrev pub with_discussion :
      User
      → Request
      → Driver
      → World
      → Option (Option DiscussionFull × (Res (Unit {0}) × Db))
      → Option (Response × World)
  with_discussion cur req dr w none = none
  with_discussion cur req dr w (some (none, (r, db))) = some (silent, record w { event = db })
  with_discussion cur req dr w (some (some df, (r, db))) =
      discussion_action named_exec_empty cur df.discussion req dr (record w { event = db })

  abbrev pub with_user :
      User
      → Request
      → Driver
      → World
      → Option (Option User × (Res (Unit {0}) × Db))
      → Option (Response × World)
  with_user cur req dr w none = none
  with_user cur req dr w (some (none, (r, db))) = some (silent, record w { event = db })
  with_user cur req dr w (some (some user, (r, db))) =
      user_action cur user req dr (record w { event = db })

  unfoldable pub post_uid : User → Request → Driver → World → Option (Response × World)
  unfolding discussion_action user_action discussion_find_by_id_full user_find
  post_uid cur req dr w =
      let uid = target_id cur req in
      if req.itype == "discussion" && is_discussion_action req.action
      then with_discussion cur req dr w (discussion_find_by_id_full uid dr.target w.event)
      else if req.itype == "user" && is_user_action req.action
      then with_user cur req dr w (user_find uid dr.target w.event)
      else some (silent, w)

  abbrev pub with_requested :
      Request → Driver → Option (Requested × World) → Option (Response × World)
  with_requested req dr none = none
  with_requested req dr (some (user_find_failed e, w)) = some (panics e, w)
  with_requested req dr (some (requested none, w)) = some (silent, w)
  with_requested req dr (some (requested (some cur), w)) = post_uid cur req dr w

  unfoldable pub handle_uid_post : Request → Driver → World → Option (Response × World)
  unfolding post_uid request_user
  handle_uid_post req dr w = with_requested req dr (request_user req dr w)

-- ===== src/Discussion/Create.antt =====
-- checkDiscussionParams and NewDiscussion (event/discussion.go).
pub mod Laws
use mathlib.Core.Option
use session_scheduler.Base.{
  ℕ, String, Bool, true, false, ◌||◌, Option, none, some, List, leb, ◌==◌, string_key, nat_key,
  if◌then◌else◌,
}
use session_scheduler.Sql.{count_where, first_where}
use session_scheduler.Errors.{Error, no_title, no_desc, too_many_discussions, all_whitespace}
use session_scheduler.Tx.{
  Res, ok, err, Tx, Round, pure, throw, exec, query, get_row, ◌>>=◌, ◌>>◌, or_retry, tx_loop,
}
use session_scheduler.Db.{User, Discussion, Db}
use session_scheduler.Db.Keys.{is_user, is_owned_by}
use session_scheduler.Db.Tables.{insert_discussion}
use session_scheduler.User.{interest_max}
use session_scheduler.User.Interest.{set_interest_tx}

abbrev pub max_discussions_per_user : ℕ
max_discussions_per_user = 12

-- nil, or the error.
unfoldable pub check_discussion_params : Discussion → Option Error
check_discussion_params disc =
    if disc.title == "" || all_whitespace disc.title
    then some no_title
    else if disc.description == "" || all_whitespace disc.description
    then some no_desc
    else none

-- select isadmin (isverified) from event_users where userid=?
unfoldable pub user_is_admin : String → Db → Option Bool
user_is_admin uid db = Option.map (λ (u : User). u.is_admin) (first_where (is_user uid) db.users)

unfoldable pub user_is_verified : String → Db → Option Bool
user_is_verified uid db =
    Option.map (λ (u : User). u.is_verified) (first_where (is_user uid) db.users)

-- The limit, from which admins are exempt.
unfoldable pub check_discussion_limit : String → ℕ → Tx Db (Unit {0})
unfolding user_is_admin
check_discussion_limit owner count =
    if leb max_discussions_per_user count
    then (do
      is_admin ← or_retry "Getting isadmin for user" (exec (get_row (user_is_admin owner)))
      if is_admin then pure tt else throw too_many_discussions)
    else pure tt

-- The row to insert: public and approved from the start if the owner is verified.
abbrev pub fresh_discussion : (did : String) → Discussion → Bool → Discussion
fresh_discussion did disc is_public = record disc {
  discussion_id = did;
  is_public = is_public;
  approved_title = if is_public then disc.title else "";
  approved_description = if is_public then disc.description else "";
}

-- `did` is what DiscussionID.generate draws. Answers with `disc` as the call leaves it.
unfoldable pub new_discussion_tx : (did : String) → Discussion → Tx Db Discussion
unfolding check_discussion_limit user_is_verified set_interest_tx
new_discussion_tx did disc = do
  count ←
      or_retry "Getting discussion count for user"
        (exec (query (λ db. count_where (is_owned_by disc.owner) db.discussions)))
  check_discussion_limit disc.owner count
  is_public ← exec (get_row (user_is_verified disc.owner))
  exec (insert_discussion (fresh_discussion did disc is_public))
  set_interest_tx disc.owner did interest_max
  pure (fresh_discussion did disc is_public)

unfoldable pub new_discussion :
    (did : String) → Discussion → List Round → Db → Option (Res Discussion × Db)
unfolding check_discussion_params new_discussion_tx
new_discussion did disc rs db = elim (check_discussion_params disc) [
  | some e ↦ some (err e, db)
  | none ↦ tx_loop (new_discussion_tx did disc) rs db
]

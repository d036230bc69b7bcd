-- ===== src/Discussion/Update.antt =====
-- DiscussionUpdate and DiscussionSetPublic (event/discussion.go).
pub mod Laws
use mathlib.Core.Option
use session_scheduler.Base.{
  ℕ, String, Bool, true, false, not, ◌&&◌, ◌||◌, Option, none, some, List, any, ltb, ◌==◌,
  string_key, nat_key, if◌then◌else◌,
}
use session_scheduler.Sql.{count_where, first_where, update_where}
use session_scheduler.Errors.{
  Error, internal, user_not_found, sqlite, constraint_unique, constraint_foreign_key,
}
use session_scheduler.Tx.{
  Res, ok, err, Tx, Statement, Fault, Round, pure, throw, exec, get_row, update, ◌>>=◌, ◌>>◌,
  or_retry, tx_loop, exec_loop, then_return,
}
use session_scheduler.Db.{User, Discussion, Db}
use session_scheduler.Db.Keys.{is_user, is_discussion, has_user, has_discussion}
use session_scheduler.Db.Tables.{title_taken}
use session_scheduler.User.{interest_max}
use session_scheduler.User.Interest.{set_interest_tx}
use session_scheduler.Discussion.Create.{check_discussion_params, user_is_verified}

-- select owner, isverified from event_discussions join event_users on owner = userid
--   where discussionid = ?
abbrev pub with_owner : Db → Option Discussion → Option (String × Bool)
with_owner db none = none
with_owner db (some d) = Option.map (λ verified. (d.owner, verified)) (user_is_verified d.owner db)

unfoldable pub owner_info : String → Db → Option (String × Bool)
unfolding user_is_verified
owner_info did db = with_owner db (first_where (is_discussion did) db.discussions)

-- set owner, title, description, ispublic, and if public the approved texts too
abbrev pub with_texts : Discussion → Bool → Discussion → Discussion
with_texts disc is_public d = record d {
  owner = disc.owner;
  title = disc.title;
  description = disc.description;
  is_public = is_public;
  approved_title = if is_public then disc.title else d.approved_title;
  approved_description = if is_public then disc.description else d.approved_description;
}

unfoldable pub update_discussion : Discussion → Bool → Statement Db (Unit {0})
unfolding update_where
update_discussion disc is_public db =
    if has_discussion disc.discussion_id db && title_taken disc.discussion_id disc.title db
    then err (sqlite constraint_unique)
    else if has_discussion disc.discussion_id db && not (has_user disc.owner db)
    then err (sqlite constraint_foreign_key)
    else ok (
      record db {
        discussions =
            update_where (is_discussion disc.discussion_id) (with_texts disc is_public)
              db.discussions;
      },
      tt,
    )

-- A new owner is given full interest; is that owner verified?
unfoldable pub take_over : Discussion → Tx Db Bool
unfolding set_interest_tx user_is_verified
take_over disc = do
  or_retry "Setting interest for new owner"
      (set_interest_tx disc.owner disc.discussion_id interest_max)
  or_retry "Getting IsVerified for new owner" (exec (get_row (user_is_verified disc.owner)))

-- Is the user verified who is to own the discussion after the call?
unfoldable pub next_owner_is_verified : Discussion → String × Bool → Tx Db Bool
unfolding take_over
next_owner_is_verified disc (cur_owner, verified) =
    if disc.owner == cur_owner then pure verified else take_over disc

unfoldable pub discussion_update_tx : Discussion → Tx Db (Unit {0})
unfolding owner_info next_owner_is_verified update_discussion
discussion_update_tx disc = do
  info ←
      or_retry "Getting info for owner of discussion"
        (exec (get_row (owner_info disc.discussion_id)))
  is_public ← next_owner_is_verified disc info
  exec (update_discussion disc is_public)

unfoldable pub discussion_update : Discussion → List Round → Db → Option (Res (Unit {0}) × Db)
unfolding discussion_update_tx check_discussion_params
discussion_update disc rs db = elim (check_discussion_params disc) [
  | some e ↦ some (err e, db)
  | none ↦ tx_loop (discussion_update_tx disc) rs db
]

-- The two queries of DiscussionSetPublic.
abbrev pub with_approval : Bool → Discussion → Discussion
with_approval true d = record d {
  approved_title = d.title;
  approved_description = d.description;
  is_public = true;
}
with_approval false d = record d {
  approved_title = "";
  approved_description = "";
  is_public = false;
}

unfoldable pub update_approval : String → Bool → Statement Db ℕ
unfolding update update_where count_where
update_approval did public =
    update
      (λ db. record db {
        discussions = update_where (is_discussion did) (with_approval public) db.discussions;
      })
      (λ db. count_where (is_discussion did) db.discussions)

abbrev pub check_one_discussion : ℕ → Res (Unit {0})
check_one_discussion n =
    if n == 0 then err user_not_found else if ltb 1 n then err internal else ok tt

unfoldable pub discussion_set_public :
    String → Bool → List (Option Fault) → Db → Option (Res (Unit {0}) × Db)
unfolding update_approval
discussion_set_public did public fs db =
    then_return check_one_discussion (λ _. err internal)
      (exec_loop (update_approval did public) fs db)

-- ===== src/User/Delete.antt =====
-- DeleteUser (event/user.go).
pub mod Laws
use session_scheduler.Base.{ℕ, String, Bool, ◌&&◌, Option, List, any, ◌==◌, string_key}
use session_scheduler.Errors.{user_not_found}
use session_scheduler.Tx.{Res, Tx, Round, exec, ◌>>=◌, or_retry, expect_one, tx_loop}
use session_scheduler.Db.{Discussion, Interest, User, Db}
use session_scheduler.Db.Keys.{is_user, is_interest_of}
use session_scheduler.Db.Tables.{delete_interest, delete_users}
use session_scheduler.Discussion.Delete.{delete_discussion_common}

-- discussionid in (select discussionid from event_discussions where owner = ?)
unfoldable pub is_discussion_of : String → Db → String → Bool
is_discussion_of uid db did =
    any (λ (d : Discussion). d.discussion_id == did && d.owner == uid) db.discussions

unfoldable pub delete_user_tx : String → Tx Db (Unit {0})
unfolding is_discussion_of
delete_user_tx uid = do
  _ ←
      or_retry "Deleting discussion from event_interest"
        (exec (delete_interest (is_interest_of uid)))
  _ ←
      or_retry "Deleting interest in discussions owned by user"
        (exec (λ db. delete_interest (λ i. is_discussion_of uid db i.discussion_id) db))
  _ ← or_retry "Deleting all discussions for user" (delete_discussion_common (is_discussion_of uid))
  rcount ← or_retry "Deleting record for user" (exec (delete_users (is_user uid)))
  expect_one user_not_found rcount

unfoldable pub delete_user : String → List Round → Db → Option (Res (Unit {0}) × Db)
delete_user uid = tx_loop (delete_user_tx uid)

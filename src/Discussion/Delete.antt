-- ===== src/Discussion/Delete.antt =====
-- deleteDiscussionCommon and DeleteDiscussion (event/discussion.go).
pub mod Laws
use session_scheduler.Base.{ℕ, String, Bool, Option, List, ◌==◌, string_key}
use session_scheduler.Errors.{discussion_not_found}
use session_scheduler.Tx.{Res, Tx, Round, exec, ◌>>=◌, or_retry, pure, expect_one, tx_loop}
use session_scheduler.Db.{Interest, PossibleSlot, Scheduled, Discussion, Db}
use session_scheduler.Db.Tables.{
  delete_interest, delete_possible_slots, delete_schedule, delete_discussions,
}

-- The `where` text is a test of the column discussionid. It may hold a query of its own, so it is
-- evaluated anew on the database that each statement finds.
abbrev pub Where : Type 0
Where = Db → String → Bool

unfoldable pub delete_discussion_common : Where → Tx Db ℕ
delete_discussion_common w = do
  _ ←
      or_retry "Deleting discussion from event_interest"
        (exec (λ db. delete_interest (λ i. w db i.discussion_id) db))
  _ ←
      or_retry "Deleting discussion from event_discussions_possible_slots"
        (exec (λ db. delete_possible_slots (λ p. w db p.discussion_id) db))
  _ ←
      or_retry "Deleting discussion from event_schedule"
        (exec (λ db. delete_schedule (λ e. w db e.discussion_id) db))
  or_retry "Deleting discussion from event_discussions"
      (exec (λ db. delete_discussions (λ d. w db d.discussion_id) db))

unfoldable pub delete_discussion_tx : String → Tx Db (Unit {0})
unfolding delete_discussion_common
delete_discussion_tx did = do
  rcount ← delete_discussion_common (λ db x. x == did)
  expect_one discussion_not_found rcount

unfoldable pub delete_discussion : String → List Round → Db → Option (Res (Unit {0}) × Db)
delete_discussion did = tx_loop (delete_discussion_tx did)

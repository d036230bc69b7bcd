-- ===== src/Discussion.antt =====
-- event/discussion.go. `Create` has checkDiscussionParams and NewDiscussion, `Update`
-- DiscussionUpdate and DiscussionSetPublic, `Possible` the slots that a discussion is restricted
-- to, `Delete` the deletions, `Moderation` the rule for public discussions.
pub mod Create
pub mod Update
pub mod Delete
pub mod Full
pub mod Possible
pub mod Moderation

-- ===== src/Web/Display.antt =====
-- What is shown of a user or a discussion, and to whom (display.go). Formatting of times and texts
-- is left out.
pub mod Laws
use session_scheduler.Base.{
  ℕ, String, Bool, true, false, not, ◌&&◌, ◌||◌, Option, none, some, List, [], ◌==◌, string_key,
  if◌then◌else◌, ◌≡◌, refl, arith, Bool-cases, inl, inr, ==_iff,
}
use session_scheduler.Db.{User, Discussion}
use session_scheduler.User.Find.{may_edit_user, may_edit_discussion, admin_username}
use session_scheduler.Discussion.Full.{DiscussionFull}

pub record UserProfile : Type 0 where
  pub real_name : String
  pub email : String
  pub company : String
  pub description : String

pub record DiscussionDisplay : Type 0 where
  pub full : DiscussionFull
  pub description_raw : String
  pub title_display : String
  pub is_user : Bool
  pub may_edit : Bool
  pub is_admin : Bool
  pub interest : ℕ
  pub all_users : List User

pub record UserDisplay : Type 0 where
  pub user_id : String
  pub username : String
  pub is_admin : Bool
  pub is_verified : Bool
  pub may_edit : Bool
  pub default_location : Option String
  pub profile : UserProfile
  pub list : List DiscussionDisplay

abbrev pub empty_profile : UserProfile
empty_profile = record { real_name = ""; email = ""; company = ""; description = "" }

-- `list` is what DiscussionGetListUser gives.
unfoldable pub user_get_display : User → Option User → List DiscussionDisplay → UserDisplay
unfolding may_edit_user
user_get_display u none list = record {
  user_id = u.user_id;
  username = u.username;
  is_admin = false;
  is_verified = u.is_verified;
  may_edit = false;
  default_location = none;
  profile = empty_profile;
  list = list;
}
user_get_display u (some cur) list = record {
  user_id = u.user_id;
  username = u.username;
  is_admin = cur.is_admin;
  is_verified = u.is_verified;
  may_edit = may_edit_user cur u;
  default_location = u.location;
  profile = record {
    real_name = u.real_name;
    email = u.email;
    company = u.company;
    description = u.description;
  };
  list = list;
}

-- cur == nil || (!cur.IsAdmin && cur.UserID != d.Owner)
abbrev pub is_outsider : Option User → Discussion → Bool
is_outsider none d = true
is_outsider (some cur) d = not cur.is_admin && not (cur.user_id == d.owner)

abbrev pub without_slots : DiscussionFull → DiscussionFull
without_slots d = record d { possible_slots = [] }

-- The fields that depend on who is looking; `interest` and `users` are what GetInterest and
-- UserGetAll return.
abbrev pub for_viewer :
    Discussion → Option User → ℕ → List User → DiscussionDisplay → DiscussionDisplay
for_viewer d none interest users dd = dd
for_viewer d (some cur) interest users dd =
    let seen = record dd {
      is_user = not (cur.username == admin_username);
      interest = if cur.username == admin_username then 0 else interest;
      may_edit = may_edit_discussion cur d;
      is_admin = cur.is_admin;
    } in
    if cur.is_admin
    then record seen { all_users = users }
    else record seen { full = without_slots dd.full }

abbrev pub shown : DiscussionFull → DiscussionDisplay
shown d = record {
  full = d;
  description_raw = "";
  title_display = "";
  is_user = false;
  may_edit = false;
  is_admin = false;
  interest = 0;
  all_users = [];
}

abbrev pub show_main : DiscussionFull → DiscussionDisplay
show_main d = record (shown d) {
  title_display = d.discussion.title;
  description_raw = d.discussion.description;
}

-- The approved title goes into the embedded discussion, not into TitleDisplay.
abbrev pub show_approved : DiscussionFull → DiscussionDisplay
show_approved d =
    record (shown
      (record d { discussion = record d.discussion { title = d.discussion.approved_title } })) {
        description_raw = d.discussion.approved_description;
      }

unfoldable pub discussion_get_display :
    ℕ → List User → DiscussionFull → Option User → Option DiscussionDisplay
unfolding may_edit_discussion
discussion_get_display interest users d cur =
    if not d.discussion.is_public && is_outsider cur d.discussion
    then if d.discussion.approved_title == ""
      then none
      else some (for_viewer d.discussion cur interest users (show_approved d))
    else some (for_viewer d.discussion cur interest users (show_main d))

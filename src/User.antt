-- ===== src/User.antt =====
-- event/user.go. `Register` has NewUser and CheckPassword, `Interest` the interest of users in
-- discussions, `Update` the changes to a user's row, `Delete` DeleteUser.
pub mod Register
pub mod Interest
pub mod Update
pub mod Delete
pub mod Find
pub mod Setup
use session_scheduler.Base.{String, ℕ, Bool, Option, some, none, ◌≡◌, true}

abbrev pub password_length : ℕ
password_length = 6

abbrev pub interest_max : ℕ
interest_max = 100

-- golang.org/x/crypto/bcrypt: the hash depends on a random salt, and may fail.
pub record Bcrypt : Type 0 where
  pub generate : (salt password : String) → Option String
  pub compare : (hash password : String) → Bool
  pub compare_generate :
      (salt password hash : String)
      → generate salt password ≡ some hash
      → compare hash password ≡ true

-- TZLocation.Value: the name of the location, and of a nil *time.Location "UTC".
unfoldable pub tz_value : Option String → Option String
tz_value none = some "UTC"
tz_value (some name) = some name

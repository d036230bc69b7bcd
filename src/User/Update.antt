-- ===== src/User/Update.antt =====
-- UserUpdate, SetVerified and setPassword (event/user.go).
pub mod Laws
use Prim.Native.String.{len}
use session_scheduler.Base.{
  ℕ, String, Bool, not, Option, none, some, List, ltb, ◌==◌, nat_key, string_key, if◌then◌else◌,
}
use session_scheduler.Sql.{update_where, count_where}
use session_scheduler.Errors.{
  Error, internal, message, user_not_found, password_incorrect, password_too_short,
}
use session_scheduler.Tx.{Res, ok, err, Statement, Fault, exec_loop, then_return, update}
use session_scheduler.Db.{User, Db}
use session_scheduler.Db.Keys.{is_user}
use session_scheduler.User.{Bcrypt, password_length, tz_value}

-- The columns of one user set anew; answers with the number of rows changed.
unfoldable pub update_users : String → (User → User) → Statement Db ℕ
unfolding update update_where count_where
update_users uid f =
    update (λ db. record db { users = update_where (is_user uid) f db.users })
      (λ db. count_where (is_user uid) db.users)

-- What becomes of the password: the early returns of UserUpdate, or the hash to store, if any.
pub data PasswordChange : Type 0 where
  refuse : Error → PasswordChange
  give_up keep : PasswordChange
  store : String → PasswordChange

-- set realname = ?, email = ?, company = ?, description = ?, location = ?
abbrev pub with_profile : User → User → User
with_profile user_next u = record u {
  real_name = user_next.real_name;
  email = user_next.email;
  company = user_next.company;
  description = user_next.description;
  location = tz_value user_next.location;
}

abbrev pub with_hash : Option String → User → User
with_hash none u = u
with_hash (some hash) u = record u { hashed_password = hash }

-- The `switch` on the number of rows changed.
abbrev pub check_one_row : User → ℕ → Res User
check_one_row u n = if n == 0 then err user_not_found else if ltb 1 n then err internal else ok u

unfoldable pub store_profile :
    Option String → User → List (Option Fault) → Db → Option (Res User × Db)
unfolding update_users
store_profile hash user_next fs db = then_return (check_one_row (with_hash hash user_next)) err (
    exec_loop (update_users user_next.user_id (λ u. with_hash hash (with_profile user_next u))) fs
      db)

unfoldable pub set_verified : User → Bool → List (Option Fault) → Db → Option (Res (Unit {0}) × Db)
unfolding update_users
set_verified user is_verified fs db =
    then_return (λ _. ok tt) err
      (exec_loop (update_users user.user_id (λ u. record u { is_verified = is_verified })) fs db)

-- The rest of UserUpdate.
unfoldable pub apply_change :
    PasswordChange → User → List (Option Fault) → Db → Option (Res User × Db)
unfolding store_profile
apply_change (refuse e) user_next fs db = some (err e, db)
apply_change give_up user_next fs db = some (ok user_next, db)
apply_change keep user_next fs db = store_profile none user_next fs db
apply_change (store hash) user_next fs db = store_profile (some hash) user_next fs db

module _ (crypt : Bcrypt) where
  unfoldable pub password_change : (salt : String) → User → (current new : String) → PasswordChange
  password_change salt modifier current new =
      if new == ""
      then keep
      else if current == ""
      then give_up
      else if not (crypt.compare modifier.hashed_password current)
      then refuse password_incorrect
      else if ltb (len new) password_length
      then refuse password_too_short
      else elim (crypt.generate salt new) [
        | none ↦ refuse (message "bcrypt")
        | some hash ↦ store hash
      ]

  -- The user returned is `userNext` as the call leaves it.
  unfoldable pub user_update :
      (salt : String) (user_next modifier : User) (current new : String)
      → List (Option Fault)
      → Db
      → Option (Res User × Db)
  unfolding password_change apply_change
  user_update salt user_next modifier current new =
      apply_change (password_change salt modifier current new) user_next

  unfoldable pub set_password :
      (salt : String) → User → String → List (Option Fault) → Db → Option (Res User × Db)
  unfolding update_users
  set_password salt user new fs db = elim (crypt.generate salt new) [
    | none ↦ some (err (message "bcrypt"), db)
    | some hash ↦
        then_return (λ _. ok (with_hash (some hash) user)) err
          (exec_loop (update_users user.user_id (with_hash (some hash))) fs db)
  ]

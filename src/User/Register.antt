-- ===== src/User/Register.antt =====
-- NewUser and CheckPassword (event/user.go).
pub mod Laws
use Prim.Native.String.{len}
use session_scheduler.Base.{
  String, ℕ, Bool, true, false, not, ◌&&◌, ◌||◌, Option, some, none, List, [], ◌∷◌, ◌++◌, ◌≡◌, ◌≢◌,
  ◌≤◌, ltb, ◌==◌, nat_key, string_key, if◌then◌else◌, arith, refl, any, Bool-cases, Option-cases,
  inl, inr, ◌⊎◌,
}
use session_scheduler.Errors.{
  Error, no_username, username_is_email, no_password, password_too_short, internal, username_exists,
  all_whitespace, is_email_address, is_error_constraint_unique,
}
use session_scheduler.Tx.{Res, ok, err, Fault, exec_loop, then_return}
use session_scheduler.Tx.Atomic.{exec_loop_atomic}
use session_scheduler.Db.{User, Db}
use session_scheduler.Db.Tables.{insert_user}
use session_scheduler.User.{Bcrypt, password_length, tz_value}

unfoldable pub set_default_location : String → User → User
set_default_location default_location user = elim user.location [
  | none ↦ record user { location = some default_location }
  | some tz ↦ user
]

abbrev pub name_insert_error : Error → Res User
name_insert_error e = if is_error_constraint_unique e then err username_exists else err e

module _ (crypt : Bcrypt) where
  -- The `switch` on the two passwords.
  unfoldable pub choose_password : (salt password : String) → User → Res User
  choose_password salt password user =
      if user.hashed_password == "" && password == ""
      then err no_password
      else if password == ""
      then ok user
      else if ltb (len password) password_length
      then err password_too_short
      else elim (crypt.generate salt password) [
        | none ↦ err internal
        | some hash ↦ ok (record user { hashed_password = hash })
      ]

  -- Everything before the insertion; `uid` is what UserID.generate draws.
  unfoldable pub prepare_user : (default_location uid salt password : String) → User → Res User
  unfolding choose_password set_default_location
  prepare_user default_location uid salt password user =
      if user.username == "" || all_whitespace user.username
      then err no_username
      else if is_email_address user.username
      then err username_is_email
      else elim (choose_password salt password (set_default_location default_location user)) [
        | ok u ↦ ok (record u { user_id = uid; location = tz_value u.location })
        | err e ↦ err e
      ]

  unfoldable pub new_user :
      (default_location uid salt password : String)
      → User
      → List (Option Fault)
      → Db
      → Option (Res User × Db)
  unfolding prepare_user
  new_user default_location uid salt password user fs db =
      elim (prepare_user default_location uid salt password user) [
        | err e ↦ some (err e, db)
        | ok u ↦ then_return (λ _. ok u) name_insert_error (exec_loop (insert_user u) fs db)
      ]

  unfoldable pub check_password : User → String → Bool
  check_password u password =
      if password == "" then false else crypt.compare u.hashed_password password

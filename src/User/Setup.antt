-- ===== src/User/Setup.antt =====
-- handleAdminPwd (event/event.go): the administrator's account when the program starts.
pub mod Laws
use session_scheduler.Base.{String, true, Option, none, some, List, ◌==◌, string_key, if◌then◌else◌}
use session_scheduler.Errors.{Error}
use session_scheduler.Tx.{Res, ok, err, Fault}
use session_scheduler.Db.{User, Db}
use session_scheduler.User.{Bcrypt}
use session_scheduler.User.Find.{user_find_by_username, admin_username, zero_user}
use session_scheduler.User.Register.{new_user}
use session_scheduler.User.Update.{set_password}

-- log.Fatalf ends the program.
pub data Start : Type 0 where
  ready : Start
  fatal : String → Error → Start

abbrev pub new_admin : User
new_admin = record zero_user {
  username = admin_username;
  is_admin = true;
  is_verified = true;
  real_name = "Xen Schedule Administrator";
}

abbrev pub after_call : {A : Type 0} → String → Option (Res A × Db) → Option (Start × Db)
after_call text none = none
after_call text (some (ok a, db)) = some (ready, db)
after_call text (some (err e, db)) = some (fatal text e, db)

-- `uid`, `salt` and `drawn` are what is drawn for a new account: its identifier, the salt of its
-- hash, and a password of twelve letters and digits.
module _ (crypt : Bcrypt) (default_location uid salt drawn : String) where
  -- An administrator that is there keeps the password, unless one is given.
  unfoldable pub use_admin :
      (admin_pwd : String)
      → List (Option Fault)
      → Option (Option User × (Res (Unit {0}) × Db))
      → Option (Start × Db)
  unfolding new_user set_password
  use_admin admin_pwd fs none = none
  use_admin admin_pwd fs (some (u, (err e, db))) =
      some (fatal "handleAdminPwd: Error finding admin user" e, db)
  use_admin admin_pwd fs (some (some admin, (ok u, db))) =
      let reset =
        after_call "resetting admin password" (set_password crypt salt admin admin_pwd fs db) in
      if admin_pwd == "" then some (ready, db) else reset
  use_admin admin_pwd fs (some (none, (ok u, db))) = after_call "Error creating admin user" (
      new_user crypt default_location uid salt (if admin_pwd == "" then drawn else admin_pwd)
        new_admin fs db)

  unfoldable pub handle_admin_pwd :
      (admin_pwd : String) (finding changing : List (Option Fault)) → Db → Option (Start × Db)
  unfolding user_find_by_username use_admin
  handle_admin_pwd admin_pwd finding changing db =
      use_admin admin_pwd changing (user_find_by_username admin_username finding db)

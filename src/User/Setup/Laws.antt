-- ===== src/User/Setup/Laws.antt =====
-- About handleAdminPwd (event/event.go): which account of an administrator there is after it.
use session_scheduler.Base.{
  String, Bool, true, ◌≡◌, ◌≢◌, ◌⊎◌, inl, inr, refl, ap, sym, subst, ◌∙◌, Option, none, some, List,
  [], ◌∷◌, ◌++◌, ◌==◌, ==_iff, string_key, if◌then◌else◌, arith, Bool-cases, Option-cases,
}
use session_scheduler.Sql.{first_where, update_where}
use session_scheduler.Tx.{Res, ok, err, Fault}
use session_scheduler.Tx.Atomic.{then_return-ok}
use session_scheduler.Db.{User, Db}
use session_scheduler.Db.Keys.{is_user}
use session_scheduler.User.{Bcrypt}
use session_scheduler.User.Find.{user_find_by_username}
use session_scheduler.User.Find.Laws.{user_find_by_username_finds}
use session_scheduler.User.Register.{new_user, check_password}
use session_scheduler.User.Register.Laws.{new_user_registers}
use session_scheduler.User.Update.{set_password, update_users, with_hash}
use session_scheduler.User.Setup.{Start, ready, after_call, new_admin, use_admin, handle_admin_pwd}

module _ (crypt : Bcrypt) (admin_pwd : String) (db db' : Db) where
  -- The account was there, and has a new hash if a password is given.
  pub record IsKept : Type 0 where
    pub admin : User
    pub found : first_where (λ (u : User). u.username == "admin") db.users ≡ some admin
    pub change :
        ((admin_pwd ≡ "") × (db' ≡ db))
        ⊎ ((hash : String) × (crypt.compare hash admin_pwd ≡ true)
            × (db' ≡ record db {
              users =
                  update_where
                    (is_user admin.user_id)
                    (λ (u : User). record u { hashed_password = hash })
                    db.users;
            }))

  -- There was none, and one has been added.
  pub record IsMade (drawn : String) : Type 0 where
    pub missing : first_where (λ (u : User). u.username == "admin") db.users ≡ none
    pub admin : User
    pub name : admin.username ≡ "admin"
    pub rights : (admin.is_admin ≡ true) × (admin.is_verified ≡ true)
    pub password : String
    pub chosen :
        ((admin_pwd ≡ "") × (password ≡ drawn)) ⊎ ((admin_pwd ≢ "") × (password ≡ admin_pwd))
    pub accepted : check_password crypt admin password ≡ true
    pub added : db' ≡ record db { users = db.users ++ admin ∷ [] }

set_password-ran :
    (crypt : Bcrypt) (salt new : String) (user u : User) (fs : List (Option Fault)) (db db' : Db)
    → set_password crypt salt user new fs db ≡ some (ok u, db')
    → (hash : String) × (crypt.compare hash new ≡ true)
      × (db' ≡ record db {
        users =
            update_where
              (is_user user.user_id)
              (λ (u : User). record u { hashed_password = hash })
              db.users;
      })
unfolding set_password update_users
set_password-ran crypt salt new user u fs db db' h = elim (Option-cases (crypt.generate salt new)) [
  | inl e ↦ absurd (ground arith)
  | inr (hash, e) ↦
      let (n, _, q) =
        then_return-ok (update_users user.user_id (with_hash (some hash))) fs db db'
          (λ _. ok (with_hash (some hash) user)) err u (λ e. ground arith) (ground arith) in
      (hash, crypt.compare_generate salt new hash e, unfold update_users in ground arith)
]

after_call-ready :
    {A : Type 0} (text : String) (o : Option (Res A × Db)) (db' : Db)
    → after_call text o ≡ some (ready, db')
    → (a : A) × (o ≡ some (ok a, db'))
after_call-ready text none db' h = absurd (ground arith)
after_call-ready text (some (err e, db)) db' h = absurd (ground arith)
after_call-ready text (some (ok a, db)) db' h = (a, ground arith)

module _ (crypt : Bcrypt) (default_location uid salt drawn : String) (some_drawn : drawn ≢ "")
    (admin_pwd : String) (fs : List (Option Fault)) (db db' : Db) where
  kept :
      (admin : User)
      → first_where (λ (u : User). u.username == "admin") db.users ≡ some admin
      → use_admin crypt default_location uid salt drawn admin_pwd fs
          (some (some admin, (ok tt, db)))
        ≡ some (ready, db')
      → IsKept crypt admin_pwd db db'
  unfolding use_admin
  kept admin found h = record {
    admin = admin;
    found = found;
    change = elim (Bool-cases (admin_pwd == "")) [
      | inl none_given ↦ inl ((==_iff admin_pwd "").0 none_given, ground arith)
      | inr given ↦
          let (u, ran) =
            after_call-ready "resetting admin password"
              (set_password crypt salt admin admin_pwd fs db) db' (ground arith) in
          inr (set_password-ran crypt salt admin_pwd admin u fs db db' ran)
    ];
  }

  added_with :
      (password : String)
      → password ≢ ""
      → ((admin_pwd ≡ "") × (password ≡ drawn)) ⊎ ((admin_pwd ≢ "") × (password ≡ admin_pwd))
      → first_where (λ (u : User). u.username == "admin") db.users ≡ none
      → after_call "Error creating admin user"
          (new_user crypt default_location uid salt password new_admin fs db)
        ≡ some (ready, db')
      → IsMade crypt admin_pwd db db' drawn
  added_with password some_password chosen missing h =
      let (u, ran) =
        after_call-ready "Error creating admin user"
          (new_user crypt default_location uid salt password new_admin fs db) db' h in
      let (registered, _, _, added) =
        new_user_registers crypt default_location uid salt password new_admin fs db db' u ran in
      record {
        missing = missing;
        admin = u;
        name = registered.name;
        rights = (registered.admin, registered.verified);
        password = password;
        chosen = chosen;
        accepted = (registered.accepted some_password).0;
        added = added;
      }

  made :
      first_where (λ (u : User). u.username == "admin") db.users ≡ none
      → use_admin crypt default_location uid salt drawn admin_pwd fs (some (none, (ok tt, db)))
        ≡ some (ready, db')
      → IsMade crypt admin_pwd db db' drawn
  unfolding use_admin
  made missing h = elim (Bool-cases (admin_pwd == "")) [
    | inl none_given ↦
        added_with drawn some_drawn (inl ((==_iff admin_pwd "").0 none_given, refl)) missing
          (sym (ap called none_given) ∙ h)
    | inr given ↦
        let some_given : admin_pwd ≢ "" = λ e. ground (arith, given, ==_iff admin_pwd "", e) in
        added_with admin_pwd some_given (inr (some_given, refl)) missing (sym (ap called given) ∙ h)
  ]
    where
      called : Bool → Option (Start × Db)
      called none_given = after_call "Error creating admin user" (
          new_user crypt default_location uid salt (if none_given then drawn else admin_pwd)
            new_admin fs db)

  -- When handleAdminPwd does not stop the program, whatever the driver did, either a user named
  -- admin was there, whose password hash accepts the password given, if any, and nothing else has
  -- changed; or there was none, and one has been added, verified and an administrator, with a hash
  -- that accepts the password given, or where none is the one drawn, if that is not empty, and
  -- nothing else has changed.
  pub handle_admin_pwd-IsSetUp :
      (finding : List (Option Fault))
      → handle_admin_pwd crypt default_location uid salt drawn admin_pwd finding fs db
        ≡ some (ready, db')
      → IsKept crypt admin_pwd db db' ⊎ IsMade crypt admin_pwd db db' drawn
  unfolding handle_admin_pwd use_admin
  handle_admin_pwd-IsSetUp finding h = go (user_find_by_username "admin" finding db) refl h
    where
      go :
          (o : Option (Option User × (Res (Unit {0}) × Db)))
          → user_find_by_username "admin" finding db ≡ o
          → use_admin crypt default_location uid salt drawn admin_pwd fs o ≡ some (ready, db')
          → IsKept crypt admin_pwd db db' ⊎ IsMade crypt admin_pwd db db' drawn
      go none p k = absurd (ground arith)
      go (some (u, (err e, d))) p k = absurd (ground arith)
      go (some (some admin, (ok u, d))) p k =
          let (found, same) = user_find_by_username_finds "admin" finding db d (some admin) p in
          inl (
            kept admin (sym found) (
              subst
                (λ x.
                  use_admin crypt default_location uid salt drawn admin_pwd fs
                    (some (some admin, (ok tt, x)))
                  ≡ some (ready, db'))
                same k))
      go (some (none, (ok u, d))) p k =
          let (found, same) = user_find_by_username_finds "admin" finding db d none p in
          inr (
            made (sym found) (
              subst
                (λ x.
                  use_admin crypt default_location uid salt drawn admin_pwd fs
                    (some (none, (ok tt, x)))
                  ≡ some (ready, db'))
                same k))

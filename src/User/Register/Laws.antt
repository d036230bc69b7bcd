-- ===== src/User/Register/Laws.antt =====
-- About NewUser (event/user.go) and the password that it stores.
use Prim.Native.String.{len}
use session_scheduler.Base.{
  String, true, false, Option, some, none, List, [], ◌∷◌, ◌++◌, ◌≡◌, ◌≢◌, ◌≤◌, ◌==◌, ==_iff,
  nat_key, string_key, arith, refl, subst, any,
}
use session_scheduler.Errors.{Error, all_whitespace, is_email_address}
use session_scheduler.Tx.{Res, ok, err, Fault}
use session_scheduler.Tx.Atomic.{then_return-ok, then_return-err}
use session_scheduler.Db.{User, Db}
use session_scheduler.Db.Keys.{has_user}
use session_scheduler.Db.Tables.{insert_user}
use session_scheduler.User.{Bcrypt, password_length}
use session_scheduler.User.Register.{
  choose_password, set_default_location, prepare_user, new_user, check_password, name_insert_error,
}

-- The user that NewUser stores, from the one that it is given.
pub record IsRegistered (crypt : Bcrypt) (uid password : String) (user u : User) : Type 0 where
  pub id : u.user_id ≡ uid
  pub name : u.username ≡ user.username
  pub admin : u.is_admin ≡ user.is_admin
  pub verified : u.is_verified ≡ user.is_verified
  pub named : all_whitespace u.username ≡ false
  pub no_email : is_email_address u.username ≡ false
  pub accepted :
      password ≢ "" → (check_password crypt u password ≡ true) × (password_length ≤ len password)

choose_password_lem :
    (crypt : Bcrypt) (salt password : String) (user u : User)
    → choose_password crypt salt password user ≡ ok u
    → (u ≡ record user { hashed_password = u.hashed_password })
      × (password ≢ ""
          → (check_password crypt u password ≡ true) × (password_length ≤ len password))
unfolding choose_password check_password
choose_password_lem crypt salt password user u h = go (crypt.generate salt password) refl
  where
    go :
        (o : Option String)
        → crypt.generate salt password ≡ o
        → (u ≡ record user { hashed_password = u.hashed_password })
          × (password ≢ ""
              → (check_password crypt u password ≡ true) × (password_length ≤ len password))
    go none e = ground (arith, ==_iff password "")
    go (some hash) e =
        ground (arith, ==_iff password "", crypt.compare_generate salt password hash e)

module _ (crypt : Bcrypt) (default_location uid salt password : String) (user : User) where
  prepare_user-IsRegistered :
      (u : User)
      → prepare_user crypt default_location uid salt password user ≡ ok u
      → IsRegistered crypt uid password user u
  unfolding prepare_user set_default_location check_password
  prepare_user-IsRegistered u h = go (choose_password crypt salt password given) refl
    where
      given : User
      given = set_default_location default_location user

      go :
          (r : Res User)
          → choose_password crypt salt password given ≡ r
          → IsRegistered crypt uid password user u
      go (err e) p = absurd (ground arith)
      go (ok v) p = ground (arith, choose_password_lem crypt salt password given v p)

  module _ (fs : List (Option Fault)) (db db' : Db) where
    stored :
        (v : User)
        → prepare_user crypt default_location uid salt password user ≡ ok v
        → insert_user v db ≡ ok (db', tt)
        → IsRegistered crypt uid password user v
          × (any (λ (x : User). x.username == v.username) db.users ≡ false)
          × (has_user uid db ≡ false)
          × (db' ≡ record db { users = db.users ++ v ∷ [] })
    unfolding insert_user
    stored v p q =
        let reg = prepare_user-IsRegistered v p in
        (reg, ground arith, subst (λ i. has_user i db ≡ false) reg.id (ground arith), ground arith)

    -- When NewUser succeeds it has added one user to the table, the one it returns: with the
    -- identifier drawn, the given name and flags, a name that no row had and that is neither blank
    -- nor an email address, and, where a password was given, a hash that accepts it, of at least
    -- six bytes. Nothing else in the database changes.
    pub new_user_registers :
        (u : User)
        → new_user crypt default_location uid salt password user fs db ≡ some (ok u, db')
        → IsRegistered crypt uid password user u
          × (any (λ (v : User). v.username == u.username) db.users ≡ false)
          × (has_user uid db ≡ false)
          × (db' ≡ record db { users = db.users ++ u ∷ [] })
    unfolding new_user
    new_user_registers u h = go (prepare_user crypt default_location uid salt password user) refl
      where
        go :
            (r : Res User)
            → prepare_user crypt default_location uid salt password user ≡ r
            → IsRegistered crypt uid password user u
              × (any (λ (v : User). v.username == u.username) db.users ≡ false)
              × (has_user uid db ≡ false)
              × (db' ≡ record db { users = db.users ++ u ∷ [] })
        go (err e) p = absurd (ground arith)
        go (ok v) p =
            let (a, q, r) =
              then_return-ok (insert_user v) fs db db' (λ _. ok v) name_insert_error u
                (λ e. ground arith) (ground arith) in
            let e : v ≡ u = ground arith in
            subst
              (λ w.
                IsRegistered crypt uid password user w
                × (any (λ (x : User). x.username == w.username) db.users ≡ false)
                × (has_user uid db ≡ false)
                × (db' ≡ record db { users = db.users ++ w ∷ [] }))
              e (stored v p r)

    -- A call that fails stores nothing.
    new_user_fails :
        (e : Error)
        → new_user crypt default_location uid salt password user fs db ≡ some (err e, db')
        → db' ≡ db
    unfolding new_user
    new_user_fails e h = go (prepare_user crypt default_location uid salt password user) refl
      where
        go :
            (r : Res User)
            → prepare_user crypt default_location uid salt password user ≡ r
            → db' ≡ db
        go (err e') p = ground arith
        go (ok v) p =
            then_return-err (insert_user v) fs db db' (λ _. ok v) name_insert_error e
              (λ a. ground arith) (ground arith)

-- ===== src/User/Update/Laws.antt =====
-- About UserUpdate (event/user.go): what it can change, and what it asks for.
use Prim.Native.String.{len}
use session_scheduler.Base.{
  ℕ, String, Bool, true, ◌≡◌, ◌≢◌, ◌≤◌, ◌⊎◌, inl, inr, refl, ap, sym, subst, Option, none, some,
  List, [], ◌∷◌, map, ==_iff, nat_key, string_key, arith, Option-cases,
}
use session_scheduler.Sql.{select, update_where, count_where, delete_where}
use session_scheduler.Tx.{Res, ok, err, Fault, exec_loop, then_return, update}
use session_scheduler.Tx.Atomic.{then_return-ok, exec_loop_atomic}
use session_scheduler.Db.{User, Db}
use session_scheduler.Db.Keys.{is_user}
use session_scheduler.User.{Bcrypt, password_length}
use session_scheduler.User.Register.{check_password}
use session_scheduler.User.Update.{
  update_users, PasswordChange, refuse, give_up, keep, store, with_profile, with_hash,
  check_one_row, store_profile, password_change, user_update, apply_change,
}

-- The columns that UserUpdate is not to change.
pub record Fixed : Type 0 where
  pub user_id : String
  pub username : String
  pub is_admin : Bool
  pub is_verified : Bool

abbrev pub fixed : User → Fixed
fixed u = record {
  user_id = u.user_id;
  username = u.username;
  is_admin = u.is_admin;
  is_verified = u.is_verified;
}

-- Two databases with the same users but for the profile and password of `uid`.
pub record OnlyProfile (uid : String) (db db' : Db) : Type 0 where
  pub rest : db' ≡ record db { users = db'.users }
  pub columns : map fixed db'.users ≡ map fixed db.users
  pub others : delete_where (is_user uid) db'.users ≡ delete_where (is_user uid) db.users

OnlyProfile-refl : (uid : String) (db : Db) → OnlyProfile uid db db
OnlyProfile-refl uid db = record { rest = refl; columns = refl; others = refl }

module _ (hash : Option String) (user_next : User) where
  abbrev pub changed : User → User
  changed u = with_hash hash (with_profile user_next u)

  fixed-changed : (u : User) → fixed (changed u) ≡ fixed u
  fixed-changed u = ground arith

  columns_kept :
      (p : User → Bool) (us : List User) → map fixed (update_where p changed us) ≡ map fixed us
  unfolding update_where
  columns_kept p [] = refl
  columns_kept p (u ∷ us) = ground (arith, fixed-changed u, columns_kept p us)

  others_kept :
      (us : List User)
      → delete_where
          (is_user user_next.user_id)
          (update_where (is_user user_next.user_id) changed us)
        ≡ delete_where (is_user user_next.user_id) us
  unfolding update_where delete_where select
  others_kept [] = refl
  others_kept (u ∷ us) = ground (arith, ap (λ f. f.user_id) (fixed-changed u), others_kept us)

  update_OnlyProfile :
      (db db' : Db) (n : ℕ)
      → update_users user_next.user_id changed db ≡ ok (db', n)
      → OnlyProfile user_next.user_id db db'
  unfolding update_users update
  update_OnlyProfile db db' n h = record {
    rest = ground arith;
    columns = ground (arith, columns_kept (is_user user_next.user_id) db.users);
    others = ground (arith, others_kept db.users);
  }

  store_profile-OnlyProfile :
      (fs : List (Option Fault)) (db db' : Db) (r : Res User)
      → store_profile hash user_next fs db ≡ some (r, db')
      → OnlyProfile user_next.user_id db db'
  unfolding store_profile
  store_profile-OnlyProfile fs db db' r h =
      go (exec_loop (update_users user_next.user_id changed) fs db) refl h
    where
      go :
          (o : Option (Res ℕ × Db))
          → exec_loop (update_users user_next.user_id changed) fs db ≡ o
          → then_return (check_one_row (with_hash hash user_next)) err o ≡ some (r, db')
          → OnlyProfile user_next.user_id db db'
      go none p k = absurd (ground arith)
      go (some (x, d)) p k = elim (exec_loop_atomic _ fs db d x p) [
        | inl (n, e, q) ↦
            let same : d ≡ db' = ground arith in
            subst (OnlyProfile user_next.user_id db) same (update_OnlyProfile db d n q)
        | inr (e, q, unchanged) ↦
            let same : db ≡ db' = ground arith in
            subst (OnlyProfile user_next.user_id db) same (OnlyProfile-refl user_next.user_id db)
      ]

  store_profile-ok :
      (fs : List (Option Fault)) (db db' : Db) (u : User)
      → store_profile hash user_next fs db ≡ some (ok u, db')
      → (u ≡ with_hash hash user_next)
        × (count_where (is_user user_next.user_id) db.users ≡ 1)
        × (db'.users ≡ update_where (is_user user_next.user_id) changed db.users)
  unfolding store_profile update_users update
  store_profile-ok fs db db' u h =
      let (n, p, q) =
        then_return-ok (update_users user_next.user_id changed) fs db db'
          (check_one_row (with_hash hash user_next)) err u (λ e. ground arith) h in
      (ground arith, ground arith, ground arith)

module _ (crypt : Bcrypt) (salt : String) (user_next modifier : User) (current new : String)
    (fs : List (Option Fault)) (db db' : Db) where
  -- However UserUpdate ends, only the profile columns and the password hash of the one user can
  -- have changed: no user name, no admin flag, no verification flag, and no other row or table.
  pub user_update-OnlyProfile :
      (r : Res User)
      → user_update crypt salt user_next modifier current new fs db ≡ some (r, db')
      → OnlyProfile user_next.user_id db db'
  unfolding user_update apply_change
  user_update-OnlyProfile r h = go (password_change crypt salt modifier current new) h
    where
      stay : db ≡ db' → OnlyProfile user_next.user_id db db'
      stay e = subst (OnlyProfile user_next.user_id db) e (OnlyProfile-refl user_next.user_id db)

      go :
          (c : PasswordChange)
          → apply_change c user_next fs db ≡ some (r, db')
          → OnlyProfile user_next.user_id db db'
      go (refuse e) k = stay (ground arith)
      go give_up k = stay (ground arith)
      go keep k = store_profile-OnlyProfile none user_next fs db db' r (ground arith)
      go (store hash) k = store_profile-OnlyProfile (some hash) user_next fs db db' r (ground arith)

  -- What the new password needs, by what is done with it.
  abbrev Warranted : PasswordChange → Type 0
  Warranted (refuse e) = Unit
  Warranted give_up = current ≡ ""
  Warranted keep = new ≡ ""
  Warranted (store hash) =
      (crypt.compare modifier.hashed_password current ≡ true)
      × (password_length ≤ len new)
      × (crypt.generate salt new ≡ some hash)

  password_change-Warranted :
      (c : PasswordChange) → password_change crypt salt modifier current new ≡ c → Warranted c
  unfolding password_change
  password_change-Warranted (refuse e) h = tt
  password_change-Warranted give_up h =
      ground (arith, ==_iff current "", Option-cases (crypt.generate salt new))
  password_change-Warranted keep h =
      ground (arith, ==_iff new "", Option-cases (crypt.generate salt new))
  password_change-Warranted (store hash) h = ground (arith, Option-cases (crypt.generate salt new))

  -- When UserUpdate returns no error and a new password was given, then either the current
  -- password was left empty and nothing at all was stored, or the current password is the
  -- modifier's, the new one has at least six bytes, and the hash stored for the user accepts it.
  pub user_update_password :
      (u : User)
      → new ≢ ""
      → user_update crypt salt user_next modifier current new fs db ≡ some (ok u, db')
      → ((current ≡ "") × (db' ≡ db))
        ⊎ ((crypt.compare modifier.hashed_password current ≡ true)
            × (password_length ≤ len new)
            × (check_password crypt u new ≡ true)
            × (count_where (is_user user_next.user_id) db.users ≡ 1)
            × (db'.users
                ≡ update_where
                    (is_user user_next.user_id)
                    (changed (some u.hashed_password) user_next)
                    db.users))
  unfolding user_update apply_change
  user_update_password u some_new h = go (password_change crypt salt modifier current new) refl
    where
      go :
          (c : PasswordChange)
          → password_change crypt salt modifier current new ≡ c
          → ((current ≡ "") × (db' ≡ db))
            ⊎ ((crypt.compare modifier.hashed_password current ≡ true)
                × (password_length ≤ len new)
                × (check_password crypt u new ≡ true)
                × (count_where (is_user user_next.user_id) db.users ≡ 1)
                × (db'.users
                    ≡ update_where
                        (is_user user_next.user_id)
                        (changed (some u.hashed_password) user_next)
                        db.users))
      go (refuse e) k = absurd (ground arith)
      go give_up k = inl (password_change-Warranted give_up k, ground arith)
      go keep k = absurd (some_new (password_change-Warranted keep k))
      go (store hash) k =
          let (compared, long, hashed) = password_change-Warranted (store hash) k in
          let (same, one, stored) =
            store_profile-ok (some hash) user_next fs db db' u (ground arith) in
          inr (
            compared,
            long,
            unfold check_password in
                ground (arith, ==_iff new "", crypt.compare_generate salt new hash hashed),
            one,
            subst
                (λ x.
                  db'.users
                  ≡ update_where (is_user user_next.user_id) (changed (some x) user_next) db.users)
                (ap (λ (v : User). v.hashed_password) (sym same)) stored,
          )

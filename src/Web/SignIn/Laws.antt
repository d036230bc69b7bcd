-- ===== src/Web/SignIn/Laws.antt =====
-- About signing in (handle_session.go).
use session_scheduler.Base.{
  String, true, not, ◌&&◌, ◌||◌, ◌≡◌, ◌⊎◌, inl, inr, refl, ap, sym, subst, ◌∙◌, Option, none, some,
  List, string_key, arith, Bool-cases, some_inj,
}
use session_scheduler.Sql.{first_where}
use session_scheduler.Tx.{Res, ok, err, Fault}
use session_scheduler.Db.{User, Db}
use session_scheduler.Keyvalue.{get_bool_def}
use session_scheduler.User.{Bcrypt}
use session_scheduler.User.Register.{check_password}
use session_scheduler.User.Find.{has_name, user_find_by_username}
use session_scheduler.User.Find.Laws.{user_find_by_username_finds}
use session_scheduler.Web.{World, Request, Driver, Response, form_value, flag_active}
use session_scheduler.Web.SignIn.{check_lookup, find_user, use_found_user, handle_session_create}

-- Who a name and a password stand for.
abbrev pub IsKnown : Bcrypt → (username password : String) → Db → User → Type 0
IsKnown crypt username password db u =
    (first_where (has_name username) db.users ≡ some u) × (check_password crypt u password ≡ true)

pub find_user-IsKnown :
    (crypt : Bcrypt) (username password : String) (fs : List (Option Fault)) (db db' : Db)
    (u : User)
    → find_user crypt username password fs db ≡ some (ok u, db')
    → IsKnown crypt username password db u × (db' ≡ db)
unfolding find_user
find_user-IsKnown crypt username password fs db db' u h =
    go (user_find_by_username username fs db) refl h
  where
    go :
        (o : Option (Option User × (Res (Unit {0}) × Db)))
        → user_find_by_username username fs db ≡ o
        → check_lookup crypt password o ≡ some (ok u, db')
        → IsKnown crypt username password db u × (db' ≡ db)
    go none p k = absurd (ground arith)
    go (some (user, (err e, d))) p k = absurd (ground arith)
    go (some (none, (ok x, d))) p k = absurd (ground arith)
    go (some (some v, (ok x, d))) p k =
        let (found, same) = user_find_by_username_finds username fs db d (some v) p in
        elim (Bool-cases (check_password crypt v password)) [
          | inl right ↦
              let mine : v ≡ u = ground arith in
              (
                (
                  sym found ∙ ap some mine,
                  subst (λ y. check_password crypt y password ≡ true) mine right,
                ),
                ground (arith, same),
              )
          | inr wrong ↦ absurd (ground arith)
        ]

-- A request to sign in that changes the sessions at all, whatever the drivers do, carries the name
-- and the password of a user, and the site is active or that user an administrator. The
-- configuration does not change.
pub handle_session_create_admits :
    (crypt : Bcrypt) (unescape : String → Option String) (sid : String) (req : Request)
    (dr : Driver) (w w' : World) (resp : Response)
    → handle_session_create crypt unescape sid req dr w ≡ some (resp, w')
    → ((w'.sessions ≡ w.sessions)
        ⊎ ((u : User) × IsKnown crypt
              (form_value req "username")
              (form_value req "password")
              w.event
              u
            × ((get_bool_def dr.flag flag_active w.kvs || u.is_admin) ≡ true)))
      × (w'.kvs ≡ w.kvs)
unfolding handle_session_create
handle_session_create_admits crypt unescape sid req dr w w' resp h =
    go (find_user crypt (form_value req "username") (form_value req "password") dr.tries w.event)
      refl h
  where
    go :
        (o : Option (Res User × Db))
        → find_user crypt (form_value req "username") (form_value req "password") dr.tries w.event
          ≡ o
        → use_found_user unescape sid req dr w o ≡ some (resp, w')
        → ((w'.sessions ≡ w.sessions)
            ⊎ ((u : User) × IsKnown crypt
                  (form_value req "username")
                  (form_value req "password")
                  w.event
                  u
                × ((get_bool_def dr.flag flag_active w.kvs || u.is_admin) ≡ true)))
          × (w'.kvs ≡ w.kvs)
    go none p k = absurd (ground arith)
    go (some (err e, db)) p k =
        let there : record w { event = db } ≡ w' = ap (λ x. x.1) (some_inj k) in
        (inl (ap World.sessions (sym there)), ap World.kvs (sym there))
    go (some (ok u, db)) p k =
        let (known, same) =
          find_user-IsKnown crypt (form_value req "username") (form_value req "password") dr.tries
            w.event db u p in
        elim (Bool-cases (not (get_bool_def dr.flag flag_active w.kvs) && not u.is_admin)) [
          | inl closed ↦
              let there : record w { event = db } ≡ w' = ground arith in
              (inl (ap World.sessions (sym there)), ap World.kvs (sym there))
          | inr opened ↦ (inr (u, known, ground arith), ground arith)
        ]

-- ===== src/Web/SignIn/Registration.antt =====
-- About registering (handle_user.go), and what comes of it at the next request.
use session_scheduler.Base.{
  String, true, false, any, ◌≡◌, ◌≢◌, refl, ap, sym, subst, ◌∙◌, Option, none, some, List, [], ◌∷◌,
  ◌++◌, ◌==◌, ==_iff, string_key, arith, Bool-cases, inl, inr, some_inj,
}
use session_scheduler.Sql.{first_where}
use session_scheduler.Sql.Rows.{first_where-append_hit}
use session_scheduler.Errors.{is_validation_error}
use session_scheduler.Tx.{Res, ok, err, Fault, exec_loop, get_row}
use session_scheduler.Db.{User, Db}
use session_scheduler.Db.Keys.{is_user, has_user}
use session_scheduler.Keyvalue.{get}
use session_scheduler.Sessions.{
  Session, SessionRow, SessionRows, Cookie, is_row, row_of, fresh_session, new_session,
}
use session_scheduler.Sessions.Laws.{saved_row, new_session_parts}
use session_scheduler.User.{Bcrypt}
use session_scheduler.User.Register.{check_password, new_user}
use session_scheduler.User.Register.Laws.{IsRegistered, new_user_registers}
use session_scheduler.User.Find.{zero_user, has_name, user_find_by_username}
use session_scheduler.Web.{World, Request, Driver, redirect, form_value, verification_code}
use session_scheduler.Web.Form.{parse_profile, set_location}
use session_scheduler.Web.SignIn.{
  find_user, check_code, use_code, form_user, create_user, use_new_user, after_session,
  handle_user_create,
}

-- What registering sets of the user, and what it leaves as User{} has it.
abbrev pub HasName : String → User → Type 0
HasName name u = (u.username ≡ name) × (u.is_admin ≡ false)

parse_profile-HasName :
    (load_location : String → Option String) (req : Request) (name : String) (u : User)
    → HasName name u
    → HasName name (parse_profile load_location req u)
unfolding parse_profile
parse_profile-HasName load_location req name u h =
    elim (Bool-cases (form_value req "Location" == "")) [
      | inl unset ↦ rw unset h
      | inr set ↦ rw set (go (load_location (form_value req "Location")) _ h)
    ]
  where
    go : (o : Option String) (v : User) → HasName name v → HasName name (set_location o v)
    go none v k = k
    go (some loc) v k = k

check_code-HasName :
    (req : Request) (dr : Driver) (w : World) (name : String) (u v : User)
    → HasName name u
    → check_code req dr w u ≡ ok v
    → HasName name v
unfolding check_code
check_code-HasName req dr w name u v h k = go (get dr.code verification_code w.kvs) k
  where
    go : (r : Res String) → use_code req dr w u r ≡ ok v → HasName name v
    go (err e) p = absurd (ground arith)
    go (ok evcode) p = (ground (arith, h), ground (arith, h))

-- A user whose row is added last, and whose name is new, is found by it.
finds_added :
    (crypt : Bcrypt) (name password : String) (fs : List (Option Fault)) (db : Db) (u : User)
    → any (has_name name) db.users ≡ false
    → u.username ≡ name
    → check_password crypt u password ≡ true
    → find_user crypt name password (none ∷ fs) (record db { users = db.users ++ u ∷ [] })
      ≡ some (ok u, record db { users = db.users ++ u ∷ [] })
unfolding find_user user_find_by_username exec_loop get_row
finds_added crypt name password fs db u fresh named right =
    let found : first_where (has_name name) (db.users ++ u ∷ []) ≡ some u =
      first_where-append_hit (has_name name) db.users u fresh
        (ground (arith, ==_iff u.username name)) in
    ground (arith, found)

-- What registering leaves of the user `u`.
abbrev pub IsNewcomer :
    Bcrypt → (uid sid : String) → Request → List (Option Fault) → World → User → Type 0
IsNewcomer crypt uid sid req fs w u =
    HasName (form_value req "Username") u
    × (first_where (is_user uid) w.event.users ≡ some u)
    × ((row : SessionRow) × (first_where (is_row sid) w.sessions ≡ some row) × (row.user_id ≡ uid))
    × (find_user crypt (form_value req "Username") (form_value req "Password") (none ∷ fs) w.event
        ≡ some (ok u, w.event))

module _ (crypt : Bcrypt) (load_location : String → Option String)
    (default_location uid salt sid : String) (req : Request) (dr : Driver) (w w' : World)
    (fs : List (Option Fault)) (given : form_value req "Password" ≢ "") where
  newcomer :
      (form u : User) (db : Db)
      → HasName (form_value req "Username") form
      → new_user crypt default_location uid salt (form_value req "Password") form dr.tries w.event
        ≡ some (ok u, db)
      → after_session
          (record w { event = db })
          (new_session dr.session dr.now sid u.user_id w.sessions)
        ≡ (redirect "/?flash=User+created", w')
      → IsNewcomer crypt uid sid req fs w' u
  newcomer form u db named added h =
      go (new_session dr.session dr.now sid u.user_id w.sessions) refl h (
        new_user_registers crypt default_location uid salt (form_value req "Password") form dr.tries
          w.event db u added)
    where
      go :
          (x : (Session × Cookie × Res (Unit {0})) × SessionRows)
          → new_session dr.session dr.now sid u.user_id w.sessions ≡ x
          → after_session (record w { event = db }) x ≡ (redirect "/?flash=User+created", w')
          → IsRegistered crypt uid (form_value req "Password") form u
            × (any (λ (v : User). v.username == u.username) w.event.users ≡ false)
            × (has_user uid w.event ≡ false)
            × (db ≡ record w.event { users = w.event.users ++ u ∷ [] })
          → IsNewcomer crypt uid sid req fs w' u
      go ((s, c, err e), rows) p k facts = absurd (ground arith)
      go ((s, c, ok t), rows) p k (reg, fresh, unused, stored) =
          let name : u.username ≡ form_value req "Username" = reg.name ∙ named.0 in
          let there : record w {
            event = record w.event { users = w.event.users ++ u ∷ [] };
            sessions = rows;
          }
              ≡ w' =
            ap (λ d. record w { event = d; sessions = rows }) (sym stored) ∙ ap (λ x. x.1) k in
          let (_, _, saved) =
            new_session_parts dr.session dr.now sid u.user_id w.sessions rows s c (ok t) p in
          subst (λ x. IsNewcomer crypt uid sid req fs x u) there
            (
              (name, reg.admin ∙ named.1),
              first_where-append_hit (is_user uid) w.event.users u unused
                  (ground (arith, reg.id, ==_iff u.user_id uid)),
              (
                row_of (fresh_session sid u.user_id dr.now),
                saved_row dr.session.save (fresh_session sid u.user_id dr.now) w.sessions rows
                    saved,
                reg.id,
              ),
              finds_added crypt (form_value req "Username") (form_value req "Password") fs w.event u
                  (subst (λ n. any (has_name n) w.event.users ≡ false) name fresh) name
                  (reg.accepted given).0,
            )

  -- When HandleUserCreate answers that the user is created, with a password given: the user has the
  -- form's name, is no administrator, and has a row, found by the identifier drawn; a session under
  -- the identifier drawn for it is in the store and is that user's; and FindUser on the form's name
  -- and password finds the user, once the driver lets its statement through.
  pub handle_user_create-IsNewcomer :
      handle_user_create crypt load_location default_location uid salt sid req dr w
        ≡ some (redirect "/?flash=User+created", w')
      → (u : User) × IsNewcomer crypt uid sid req fs w' u
  unfolding handle_user_create is_validation_error
  handle_user_create-IsNewcomer h = coded (check_code req dr w form) refl h
    where
      form : User
      form = form_user crypt load_location default_location uid salt sid req

      added :
          (v : User) (o : Option (Res User × Db))
          → HasName (form_value req "Username") v
          → new_user crypt default_location uid salt (form_value req "Password") v dr.tries w.event
            ≡ o
          → use_new_user sid dr w o ≡ some (redirect "/?flash=User+created", w')
          → (u : User) × IsNewcomer crypt uid sid req fs w' u
      added v none n p k = absurd (ground arith)
      added v (some (err e, db)) n p k = absurd (ground arith)
      added v (some (ok u, db)) n p k = (u, newcomer v u db n p (some_inj k))

      coded :
          (r : Res User)
          → check_code req dr w form ≡ r
          → create_user crypt load_location default_location uid salt sid req dr w r
            ≡ some (redirect "/?flash=User+created", w')
          → (u : User) × IsNewcomer crypt uid sid req fs w' u
      coded (err e) p k = absurd (ground arith)
      coded (ok v) p k =
          added v _
            (check_code-HasName req dr w (form_value req "Username") form v
              (unfold form_user in
                parse_profile-HasName load_location req (form_value req "Username")
                  (record zero_user { username = form_value req "Username" }) (refl, refl))
              p)
            refl k

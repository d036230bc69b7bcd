-- ===== src/Web/Requests.antt =====
-- About RequestUser (middleware.go).
use session_scheduler.Base.{
  String, ◌≡◌, ◌≢◌, refl, ap, sym, subst, ◌∙◌, Option, none, some, List, ◌==◌, ==_iff, string_key,
  arith, Bool-cases, inl, inr,
}
use session_scheduler.Sql.{first_where}
use session_scheduler.Sql.Rows.{first_where_passes}
use session_scheduler.Tx.{Res, ok, err, Round}
use session_scheduler.Db.{User, Db}
use session_scheduler.Db.Keys.{is_user}
use session_scheduler.Sessions.{Session, SessionRows, request_session}
use session_scheduler.Sessions.Laws.{IsLive, request_session-IsLive}
use session_scheduler.User.Find.{user_find}
use session_scheduler.User.Find.Laws.{user_find_finds, user_find_keeps}
use session_scheduler.Web.{
  World, Request, Driver, Requested, requested, use_lookup, find_session_user, request_user,
}

-- How a request comes to have a user: its session, which is live, and the user's row.
abbrev pub IsSignedIn : Driver → Request → User → World → Type 0
IsSignedIn dr req cur w =
    (session : Session) × (req.cookie ≡ some session.id)
    × IsLive dr.now session w.sessions
    × (session.user_id ≡ cur.user_id)
    × (first_where (is_user cur.user_id) w.event.users ≡ some cur)

looked_up :
    (uid : String) (dr : Driver) (w w₁ : World) (cur : User)
    → use_lookup w (user_find uid dr.user w.event) ≡ some (requested (some cur), w₁)
    → (first_where (is_user uid) w.event.users ≡ some cur) × (w₁ ≡ w)
looked_up uid dr w w₁ cur h = go (user_find uid dr.user w.event) refl h
  where
    go :
        (o : Option (Option User × (Res (Unit {0}) × Db)))
        → user_find uid dr.user w.event ≡ o
        → use_lookup w o ≡ some (requested (some cur), w₁)
        → (first_where (is_user uid) w.event.users ≡ some cur) × (w₁ ≡ w)
    go none p k = absurd (ground arith)
    go (some (user, (err e, db))) p k = absurd (ground arith)
    go (some (none, (ok u, db))) p k = absurd (ground arith)
    go (some (some c, (ok u, db))) p k =
        let (found, same) = user_find_finds uid dr.user w.event db (some c) p in
        let mine : c ≡ cur = ground arith in
        let there : record w { event = db } ≡ w₁ = ground arith in
        (sym found ∙ ap some mine, sym there ∙ ap (λ d. record w { event = d }) same)

module _ (req : Request) (dr : Driver) (w w₁ : World) (cur : User) where
  -- When RequestUser gives a user, whatever the drivers did, the request carries the identifier of
  -- a session whose row is in the store and has not expired, that session is the user's, who has
  -- a row and an identifier that is not empty, and nothing in the three stores has changed.
  pub request_user-IsSignedIn :
      request_user req dr w ≡ some (requested (some cur), w₁)
      → IsSignedIn dr req cur w × (cur.user_id ≢ "") × (w₁ ≡ w)
  unfolding request_user
  request_user-IsSignedIn h = go (request_session dr.session dr.now req.cookie w.sessions) refl h
    where
      go :
          (x : Option Session × SessionRows)
          → request_session dr.session dr.now req.cookie w.sessions ≡ x
          → find_session_user dr x.0 (record w { sessions = x.1 }) ≡ some (requested (some cur), w₁)
          → IsSignedIn dr req cur w × (cur.user_id ≢ "") × (w₁ ≡ w)
      go (none, rows) p k = absurd (ground arith)
      go (some session, rows) p k = elim (Bool-cases (session.user_id == "")) [
        | inl nobody ↦ absurd (ground arith)
        | inr somebody ↦
            let (sent, live, same) =
              request_session-IsLive dr.session dr.now req.cookie w.sessions rows session p in
            let (found, kept) =
              looked_up session.user_id dr (record w { sessions = rows }) w₁ cur (ground arith) in
            let mine : session.user_id ≡ cur.user_id = sym (
              (==_iff cur.user_id session.user_id).0
                (first_where_passes (is_user session.user_id) w.event.users cur found)) in
            (
              (
                session,
                sent,
                live,
                mine,
                subst (λ i. first_where (is_user i) w.event.users ≡ some cur) mine found,
              ),
              (λ empty. ground (arith, ==_iff session.user_id "", mine, empty)),
              kept ∙ ap (λ r. record w { sessions = r }) same,
            )
      ]

-- What the handlers read; the store of sessions may have lost an expired one.
abbrev pub StoresAreKept : World → World → Type 0
StoresAreKept w w' = (w'.event ≡ w.event) × (w'.kvs ≡ w.kvs)

use_lookup-StoresAreKept :
    (uid : String) (rs : List Round) (w w₁ : World) (who : Requested)
    → use_lookup w (user_find uid rs w.event) ≡ some (who, w₁)
    → StoresAreKept w w₁
use_lookup-StoresAreKept uid rs w w₁ who h = go (user_find uid rs w.event) refl h
  where
    go :
        (o : Option (Option User × (Res (Unit {0}) × Db)))
        → user_find uid rs w.event ≡ o
        → use_lookup w o ≡ some (who, w₁)
        → StoresAreKept w w₁
    go none p k = absurd (ground arith)
    go (some (user, (r, db))) p k =
        let same = user_find_keeps uid rs w.event db user r p in
        let there : record w { event = db } ≡ w₁ = ground arith in
        (sym (ap World.event there) ∙ same, sym (ap World.kvs there))

pub request_user-StoresAreKept :
    (req : Request) (dr : Driver) (w w₁ : World) (who : Requested)
    → request_user req dr w ≡ some (who, w₁)
    → StoresAreKept w w₁
unfolding request_user
request_user-StoresAreKept req dr w w₁ who h =
    go (request_session dr.session dr.now req.cookie w.sessions) h
  where
    go :
        (x : Option Session × SessionRows)
        → find_session_user dr x.0 (record w { sessions = x.1 }) ≡ some (who, w₁)
        → StoresAreKept w w₁
    go (none, rows) k =
        let there : record w { sessions = rows } ≡ w₁ = ground arith in
        (sym (ap World.event there), sym (ap World.kvs there))
    go (some session, rows) k = elim (Bool-cases (session.user_id == "")) [
      | inl nobody ↦
          let there : record w { sessions = rows } ≡ w₁ = ground arith in
          (sym (ap World.event there), sym (ap World.kvs there))
      | inr somebody ↦
          use_lookup-StoresAreKept session.user_id dr.user (record w { sessions = rows }) w₁ who
            (ground arith)
    ]

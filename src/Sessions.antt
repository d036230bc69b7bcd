-- ===== src/Sessions.antt =====
-- sessions/session.go and the SQLite store of sessions/session_store.go.
-- The table sessions is the list of its rows. What time.Now() gives, the identifier that a session
-- draws and what the driver reports of a statement are arguments; a time is a number of
-- nanoseconds. The user identifiers start with "usr_", so that the column type "string" of the
-- store, which SQLite takes for a numeric one, keeps them as they are.
pub mod Laws
use session_scheduler.Base.{
  ℕ, ◌+◌, ◌*◌, ◌/◌, String, Bool, not, ◌||◌, Option, none, some, List, [], ◌∷◌, ◌++◌, any, ltb,
  ◌==◌, string_key, if◌then◌else◌,
}
use session_scheduler.Errors.{Error, sqlite, constraint_primary_key}
use session_scheduler.Sql.{first_where, delete_where}
use session_scheduler.Tx.{Res, ok, err, Fault, fault_error, is_no_rows}

-- time.Second
abbrev pub second : ℕ
second = 1000000000

-- 24 * 3 * time.Hour
abbrev pub session_length : ℕ
session_length = 24 * 3 * 3600 * second

pub record Session : Type 0 where
  pub id : String
  pub user_id : String
  pub expiry : ℕ

pub record SessionRow : Type 0 where
  pub id : String
  pub user_id : String
  pub expiry_ts : ℕ

abbrev pub SessionRows : Type 0
SessionRows = List SessionRow

abbrev pub is_row : String → SessionRow → Bool
is_row id row = row.id == id

-- Time.Unix
abbrev pub unix : ℕ → ℕ
unix time = time / second

abbrev pub row_of : Session → SessionRow
row_of session = record {
  id = session.id;
  user_id = session.user_id;
  expiry_ts = unix session.expiry;
}

abbrev pub session_of : String → SessionRow → Session
session_of id row = record { id = id; user_id = row.user_id; expiry = row.expiry_ts * second }

unfoldable pub save : Option Fault → Session → SessionRows → Res (Unit {0}) × SessionRows
save (some f) session rows = (err (fault_error f), rows)
save none session rows =
    if any (is_row session.id) rows
    then (err (sqlite constraint_primary_key), rows)
    else (ok tt, rows ++ row_of session ∷ [])

-- A session that is not there is no error.
unfoldable pub find : Option Fault → String → SessionRows → Res (Option Session)
unfolding first_where
find (some f) id rows = err (fault_error f)
find none id rows = elim (first_where (is_row id) rows) [
  | none ↦ ok none
  | some row ↦ ok (some (session_of id row))
]

unfoldable pub delete : Option Fault → Session → SessionRows → Res (Unit {0}) × SessionRows
unfolding delete_where
delete (some f) session rows = (err (fault_error f), rows)
delete none session rows = (ok tt, delete_where (is_row session.id) rows)

unfoldable pub is_expired : Session → ℕ → Bool
is_expired session now = ltb session.expiry now

-- What the driver reports in a request.
pub record SessionFaults : Type 0 where
  pub find : Option Fault
  pub delete : Option Fault
  -- of the statement after these two: an insertion, or the deletion at a sign-out
  pub save : Option Fault

-- The cookie set, its name being fixed.
pub record Cookie : Type 0 where
  pub value : String
  pub expires : ℕ

abbrev pub fresh_session : (id user_id : String) → ℕ → Session
fresh_session id uid now = record { id = id; user_id = uid; expiry = now + session_length }

abbrev pub cookie_of : Session → Cookie
cookie_of session = record { value = session.id; expires = session.expiry }

-- The session is returned, and its cookie set, whether it is saved or not.
unfoldable pub new_session :
    SessionFaults
    → ℕ
    → (id user_id : String) → SessionRows
    → (Session × Cookie × Res (Unit {0})) × SessionRows
unfolding save
new_session fs now id uid rows =
    let session = fresh_session id uid now in
    let (result, rows') = save fs.save session rows in ((session, cookie_of session, result), rows')

abbrev pub check_expiry : SessionFaults → ℕ → Session → SessionRows → Option Session × SessionRows
check_expiry fs now session rows =
    if is_expired session now
    then (none, (delete fs.delete session rows).1)
    else (some session, rows)

abbrev pub use_found :
    SessionFaults → ℕ → Res (Option Session) → SessionRows → Option Session × SessionRows
use_found fs now (err e) rows = (none, rows)
use_found fs now (ok none) rows = (none, rows)
use_found fs now (ok (some session)) rows = check_expiry fs now session rows

-- The cookie's value, if the request has the cookie.
unfoldable pub request_session :
    SessionFaults → ℕ → Option String → SessionRows → Option Session × SessionRows
unfolding find delete is_expired
request_session fs now none rows = (none, rows)
request_session fs now (some value) rows = use_found fs now (find fs.find value rows) rows

pub record SignIn : Type 0 where
  pub session : Session
  pub cookie : Option Cookie
  pub result : Res (Unit {0})

abbrev pub signed_in : (Session × Cookie × Res (Unit {0})) × SessionRows → SignIn × SessionRows
signed_in ((session, cookie, result), rows) =
    (record { session = session; cookie = some cookie; result = result }, rows)

abbrev pub keep_or_create :
    SessionFaults → ℕ → (id user_id : String) → Option Session × SessionRows → SignIn × SessionRows
keep_or_create fs now id uid (none, rows) = signed_in (new_session fs now id uid rows)
keep_or_create fs now id uid (some session, rows) =
    if session.user_id == uid
    then (record { session = session; cookie = none; result = ok tt }, rows)
    else signed_in (new_session fs now id uid rows)

-- `now` at the check of the session found, `later` at the creation of a new one.
unfoldable pub find_or_create_session :
    SessionFaults
    → (now later : ℕ) → Option String
    → (id user_id : String) → SessionRows
    → SignIn × SessionRows
unfolding request_session new_session
find_or_create_session fs now later cookie id uid rows =
    keep_or_create fs later id uid (request_session fs now cookie rows)

abbrev pub delete_found :
    SessionFaults → Option Session × SessionRows → Res (Unit {0}) × SessionRows
delete_found fs (none, rows) = (ok tt, rows)
delete_found fs (some session, rows) = delete fs.save session rows

unfoldable pub delete_session_by_request :
    SessionFaults → ℕ → Option String → SessionRows → Res (Unit {0}) × SessionRows
unfolding request_session delete
delete_session_by_request fs now cookie rows = delete_found fs (request_session fs now cookie rows)

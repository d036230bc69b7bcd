-- ===== src/User/Find.antt =====
-- The lookups of users and the tests of their rights (event/user.go). What a function returns beside
-- its error is the first component of its result, where a caller looks at it.
pub mod Laws
pub mod Iterate
use mathlib.Core.Option
use session_scheduler.Base.{
  ℕ, suc, ◌%◌, String, Bool, true, false, not, ◌||◌, Option, none, some, List, [], ◌∷◌, length,
  get_elem?, take, ◌==◌, nat_key, string_key, if◌then◌else◌,
}
use session_scheduler.Sql.{select, first_where, order_by}
use session_scheduler.Errors.{Error, message, should_retry}
use session_scheduler.Tx.{
  Res, ok, err, Conn, Tx, Fault, fault_error, Round, Statement, exec, exec_loop, tx_loop, get_row,
  query, or_retry, is_no_rows,
}
use session_scheduler.Tx.Variable.{tx_loop_var, get_row_into}
use session_scheduler.Db.{User, Discussion, Db}
use session_scheduler.Db.Keys.{is_user, text_le}

unfoldable pub may_edit_user : User → User → Bool
may_edit_user u tgt = u.is_admin || u.user_id == tgt.user_id

unfoldable pub may_edit_discussion : User → Discussion → Bool
may_edit_discussion u d = u.is_admin || u.user_id == d.owner

-- User{}
abbrev pub zero_user : User
zero_user = record {
  user_id = "";
  hashed_password = "";
  username = "";
  is_admin = false;
  is_verified = false;
  location = none;
  real_name = "";
  email = "";
  company = "";
  description = "";
}

unfoldable pub user_get_tx : Option User → String → Tx Db User
unfolding get_row_into first_where
user_get_tx user uid = exec (get_row_into user (λ (db : Db). first_where (is_user uid) db.users))

-- How the body of UserFind assigns `user`, and what it returns.
abbrev pub found_or_nil :
    Option User → Res User × Conn Db → Option User × (Res (Unit {0}) × Conn Db)
found_or_nil user (ok u, c) = (some u, (ok tt, c))
found_or_nil user (err e, c) = if is_no_rows e then (none, (ok tt, c)) else (user, (err e, c))

unfoldable pub user_find_tx :
    String → Option User → Conn Db → Option User × (Res (Unit {0}) × Conn Db)
unfolding user_get_tx
user_find_tx uid user c = found_or_nil user (user_get_tx user uid c)

unfoldable pub user_find : String → List Round → Db → Option (Option User × (Res (Unit {0}) × Db))
unfolding user_find_tx tx_loop_var
user_find uid rs db = tx_loop_var (user_find_tx uid) rs (some zero_user) db

-- The `switch` of UserFindByUsername.
abbrev pub found_by_name : Res User × Db → Option User × (Res (Unit {0}) × Db)
found_by_name (ok u, db) = (some u, (ok tt, db))
found_by_name (err e, db) =
    if is_no_rows e then (none, (ok tt, db)) else (some zero_user, (err e, db))

abbrev pub has_name : String → User → Bool
has_name name u = u.username == name

unfoldable pub user_find_by_username :
    String → List (Option Fault) → Db → Option (Option User × (Res (Unit {0}) × Db))
unfolding first_where get_row
user_find_by_username name fs db =
    Option.map found_by_name
      (exec_loop (get_row (λ (d : Db). first_where (has_name name) d.users)) fs db)

abbrev pub admin_username : String
admin_username = "admin"

-- order by RANDOM() limit 1: `random` is the number that decides.
unfoldable pub random_row : {A : Type 0} → ℕ → List A → Option A
random_row random [] = none
random_row random (x ∷ xs) = get_elem? (x ∷ xs) (random % length (x ∷ xs))

abbrev pub found_random : Res User × Db → Option User × (Res (Unit {0}) × Db)
found_random (ok u, db) = (some u, (ok tt, db))
found_random (err e, db) = if is_no_rows e then (none, (ok tt, db)) else (none, (err e, db))

unfoldable pub user_find_random :
    ℕ → List (Option Fault) → Db → Option (Option User × (Res (Unit {0}) × Db))
unfolding random_row select get_row
user_find_random random fs db = Option.map found_random (
    exec_loop
      (get_row
        (λ (d : Db). random_row random (select (λ u. not (has_name admin_username u)) d.users)))
      fs db)

abbrev pub user_le : User → User → Bool
user_le u v = text_le u.user_id v.user_id

-- select * from event_users order by userid
unfoldable pub users_in_order : Db → List User
unfolding order_by
users_in_order db = order_by user_le db.users

unfoldable pub user_get_all_tx : Tx Db (List User)
unfolding query users_in_order
user_get_all_tx = exec (query users_in_order)

unfoldable pub user_get_all : List Round → Db → Option (Res (List User) × Db)
unfolding user_get_all_tx
user_get_all = tx_loop (or_retry "Getting list of all users" user_get_all_tx)

unfoldable pub get_location_tz : User → List Round → Db → Option (Res (Option String) × Db)
unfolding get_row first_where
get_location_tz user = tx_loop (
    or_retry "Getting location for user" (
      exec (
        get_row
          (λ (db : Db). Option.map User.location (first_where (is_user user.user_id) db.users)))))

-- What one run of the query of UserIterate meets: an error of Queryx, or one that ends rows.Next
-- early, after that many rows, and that rows.Err then reports.
pub record Scan : Type 0 where
  pub queryx : Option Fault
  pub stops : Option (ℕ × Fault)

-- What UserIterate does after its loop over the rows.
pub data AfterScan : Type 0 where
  leave : Option Error → AfterScan
  rescan : AfterScan

-- err = rows.Err(), after `n` rows
unfoldable pub rows_err : Option (ℕ × Fault) → ℕ → AfterScan
rows_err none n = leave none
rows_err (some (m, f)) n =
    if should_retry (fault_error f)
    then if n == 0
      then rescan
      else leave (some (message "INTERNAL ERROR: Got transaction retry error"))
    else leave (some (fault_error f))

-- The callback, on a state that it keeps.
abbrev pub Callback : Type 0 → Type 0
Callback S = User → S → Option Error × S

-- The rows that rows.Next gives before it stops.
abbrev pub scanned : Option (ℕ × Fault) → List User → List User
scanned none us = us
scanned (some (n, f)) us = take n us

module _ {S : Type 0} where
  -- The loop over the rows, with the number processed.
  unfoldable pub process : Callback S → List User → ℕ → S → Option Error × (S × ℕ)
  process f [] n s = (none, (s, n))
  process f (u ∷ us) n s =
      let (failed, s') = f u s in
      elim failed [ none ↦ process f us (suc n) s' | some e ↦ (some e, (s', n)) ]

  abbrev pub after_rows : Option (ℕ × Fault) → Option Error × (S × ℕ) → AfterScan × S
  after_rows stops (some e, (s, n)) = (leave (some e), s)
  after_rows stops (none, (s, n)) = (rows_err stops n, s)

  -- One turn of the `for`.
  unfoldable pub scan_rows : Callback S → Scan → Db → S → AfterScan × S
  unfolding process rows_err users_in_order
  scan_rows f scan db s = elim scan.queryx [
    | some e ↦ (if should_retry (fault_error e) then rescan else leave (some (fault_error e)), s)
    | none ↦ after_rows scan.stops (process f (scanned scan.stops (users_in_order db)) 0 s)
  ]

  -- `none` when the runs given end with the loop still going.
  unfoldable pub user_iterate : Callback S → List Scan → Db → S → Option (Option Error × S)
  unfolding scan_rows
  user_iterate f [] db s = none
  user_iterate f (scan ∷ scans) db s =
      let (next, s') = scan_rows f scan db s in
      elim next [ leave e ↦ some (e, s') | rescan ↦ user_iterate f scans db s' ]

-- ===== src/User/Interest.antt =====
-- SetInterest and GetInterest (event/user.go).
pub mod Laws
use mathlib.Core.Option
use session_scheduler.Base.{
  String, ℕ, ℤ, pos, negsuc, Bool, true, false, Option, some, none, List, [], ◌∷◌, ltb, ◌==◌,
  nat_key, string_key, if◌then◌else◌, arith,
}
use session_scheduler.Sql.{first_where}
use session_scheduler.Errors.{
  Error, invalid_interest, user_or_discussion_not_found, is_error_foreign_key,
}
use session_scheduler.Tx.{
  Res, ok, err, Fault, Tx, Round, exec, exec_loop, tx_loop, then_return, get_row, on_no_rows,
  or_retry,
}
use session_scheduler.Db.{User, Discussion, Interest, Db}
use session_scheduler.Db.Keys.{is_interest}
use session_scheduler.Db.Tables.{upsert_interest, delete_interest}
use session_scheduler.User.{interest_max}

unfoldable pub set_interest_tx : (uid did : String) → ℕ → Tx Db (Unit {0})
set_interest_tx uid did n =
    exec (upsert_interest (record { user_id = uid; discussion_id = did; interest = n }))

abbrev pub name_interest_error : Error → Res (Unit {0})
name_interest_error e = if is_error_foreign_key e then err user_or_discussion_not_found else err e

-- The cases of the `switch` for an interest that is in range.
unfoldable pub store_interest :
    (uid did : String) → ℕ → List (Option Fault) → Db → Option (Res (Unit {0}) × Db)
store_interest uid did n fs db =
    if n == 0
    then then_return (λ _. ok tt) err (exec_loop (delete_interest (is_interest uid did)) fs db)
    else then_return ok name_interest_error (
        exec_loop (upsert_interest (record { user_id = uid; discussion_id = did; interest = n })) fs
          db)

unfoldable pub set_interest :
    User → Discussion → ℤ → List (Option Fault) → Db → Option (Res (Unit {0}) × Db)
unfolding store_interest
set_interest user disc (negsuc n) fs db = some (err invalid_interest, db)
set_interest user disc (pos n) fs db =
    if ltb interest_max n
    then some (err invalid_interest, db)
    else store_interest user.user_id disc.discussion_id n fs db

-- select interest from event_interest where userid=? and discussionid=?
unfoldable pub user_interest : (uid did : String) → Db → Option ℕ
user_interest uid did db =
    Option.map (λ i. i.interest) (first_where (is_interest uid did) db.interest)

unfoldable pub get_interest_tx : (uid did : String) → Tx Db ℕ
get_interest_tx uid did =
    or_retry "Error getting interest for user"
      (on_no_rows 0 (exec (get_row (user_interest uid did))))

unfoldable pub get_interest : User → Discussion → List Round → Db → Option (Res ℕ × Db)
get_interest user disc = tx_loop (get_interest_tx user.user_id disc.discussion_id)

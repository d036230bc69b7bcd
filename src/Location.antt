-- ===== src/Location.antt =====
-- event/location.go.
-- A capacity is a natural number: a negative one, which `checkLocationParams` refuses like 0, is not
-- told apart from 0.
pub mod Laws
pub mod Deletion
use session_scheduler.Base.{
  ℕ, suc, Bool, ◌&&◌, Option, none, some, List, [], ◌∷◌, ltb, leb, ◌==◌, nat_key, string_key,
  if◌then◌else◌,
}
use session_scheduler.Sql.{first_where, max_of, update_where, count_where, order_by}
use session_scheduler.Errors.{
  Error, internal, message, wrapped, location_no_name, location_invalid_capacity,
  location_not_found, err_or_retry,
}
use session_scheduler.Tx.{
  Res, ok, err, Tx, Fault, fault_error, Round, Next, stop, again, fail_or_again, min_tx_retries,
  max_tx_time, pure, exec, query, get_row, update, ◌>>=◌, or_retry, tx_loop, exec_loop, then_return,
  is_no_rows,
}
use session_scheduler.Db.{Location, Db}
use session_scheduler.Db.Keys.{is_location}
use session_scheduler.Db.Tables.{insert_location, delete_locations}

unfoldable pub check_location_params : Location → Option Error
check_location_params l =
    if l.location_name == ""
    then some location_no_name
    else if ltb l.capacity 1
    then some location_invalid_capacity
    else none

-- The identifier is the one that the Go code writes into the location it is given.
unfoldable pub new_location_tx : Location → Tx Db ℕ
unfolding max_of
new_location_tx l = do
  max_id ←
      or_retry "Getting  max locationid"
        (exec (query (λ (db : Db). max_of (λ (m : Location). m.location_id) db.locations)))
  _ ← or_retry "Inserting location" (exec (insert_location (record l { location_id = suc max_id })))
  pure (suc max_id)

unfoldable pub new_location : Location → List Round → Db → Option (Res ℕ × Db)
unfolding new_location_tx check_location_params
new_location l rs db = elim (check_location_params l) [
  | some e ↦ some (err e, db)
  | none ↦ tx_loop (new_location_tx l) rs db
]

abbrev pub nil_on_no_rows : {A : Type 0} → Error → Res (Option A)
nil_on_no_rows e = if is_no_rows e then ok none else err e

unfoldable pub location_find_by_id :
    ℕ → List (Option Fault) → Db → Option (Res (Option Location) × Db)
unfolding get_row first_where
location_find_by_id lid fs db =
    then_return (λ l. ok (some l)) nil_on_no_rows
      (exec_loop (get_row (λ (d : Db). first_where (is_location lid) d.locations)) fs db)

-- The `switch` on the number of locations deleted.
abbrev pub check_one_location : ℕ → Res (Unit {0})
check_one_location n =
    if n == 0 then err location_not_found else if ltb 1 n then err internal else ok tt

abbrev pub deleted : Res (Db × ℕ) → Db → Res (Unit {0}) × Db
deleted (ok (d, n)) db = (check_one_location n, d)
deleted (err e) db = (err (err_or_retry "Deleting location from event_locations" e), db)

-- The deletion goes through `event.Exec`, outside the transaction: what it did stays when the
-- transaction is rolled back. Its fault is the first of the round's.
unfoldable pub delete_location_statement : ℕ → List (Option Fault) → Db → Res (Unit {0}) × Db
delete_location_statement lid (some f ∷ fs) db =
    (err (err_or_retry "Deleting location from event_locations" (fault_error f)), db)
delete_location_statement lid (none ∷ fs) db = deleted (delete_locations (is_location lid) db) db
delete_location_statement lid [] db = deleted (delete_locations (is_location lid) db) db

-- How `txLoop` goes on after the body, with the database that goes into the next round.
abbrev pub after_delete : Round → Res (Unit {0}) × Db → Next (Res (Unit {0}) × Db) × Db
after_delete r (err e, db) = (fail_or_again db e e, db)
after_delete r (ok u, db) = elim r.commit [
  | none ↦ (stop (ok u, db), db)
  | some f ↦
      (fail_or_again db (fault_error f) (wrapped "Commiting transaction" (fault_error f)), db)
]

unfoldable pub delete_location_round : ℕ → ℕ → Round → Db → Next (Res (Unit {0}) × Db) × Db
unfolding delete_location_statement
delete_location_round lid count r db =
    if ltb min_tx_retries count && ltb max_tx_time r.elapsed
    then (stop (err (message "Internal error: Transaction taking too long"), db), db)
    else elim r.begin [
      | none ↦ after_delete r (delete_location_statement lid r.faults db)
      | some f ↦
          (fail_or_again db (fault_error f) (wrapped "Starting transaction" (fault_error f)), db)
    ]

unfoldable pub delete_location_from : ℕ → ℕ → List Round → Db → Option (Res (Unit {0}) × Db)
unfolding delete_location_round
delete_location_from count lid [] db = none
delete_location_from count lid (r ∷ rs) db =
    let (next, db') = delete_location_round lid (suc count) r db in
    elim next [ stop result ↦ some result | again ↦ delete_location_from (suc count) lid rs db' ]

unfoldable pub delete_location : ℕ → List Round → Db → Option (Res (Unit {0}) × Db)
unfolding delete_location_from
delete_location = delete_location_from 0

-- set locationname, locationurl, isplace, capacity
abbrev pub with_location : Location → Location → Location
with_location l m = record m {
  location_name = l.location_name;
  location_url = l.location_url;
  is_place = l.is_place;
  capacity = l.capacity;
}

unfoldable pub location_update : Location → List Round → Db → Option (Res (Unit {0}) × Db)
unfolding check_location_params update_where count_where
location_update l rs db = elim (check_location_params l) [
  | some e ↦ some (err e, db)
  | none ↦
      tx_loop
        (do
          _ ← exec (
              update
                (λ (d : Db). record d {
                  locations =
                      update_where (is_location l.location_id) (with_location l) d.locations;
                })
                (λ (d : Db). count_where (is_location l.location_id) d.locations))
          pure tt)
        rs db
]

abbrev pub location_le : Location → Location → Bool
location_le l m = leb l.location_id m.location_id

unfoldable pub location_get_all : List (Option Fault) → Db → Option (Res (List Location) × Db)
unfolding order_by
location_get_all = exec_loop (query (λ (d : Db). order_by location_le d.locations))

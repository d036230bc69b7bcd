-- ===== src/Web/Admin.antt =====
-- HandleAdminAction and HandleTestAction (handle_admin.go), once the handler has found the user to
-- be an administrator, and getSearchDuration (main.go).
pub mod Sent
pub mod Laws
pub mod Actions
use Prim.Native.String.{◌++◌ as join}
use session_scheduler.Base.{
  ℕ, ◌*◌, String, Bool, true, false, not, ◌&&◌, ◌||◌, Option, none, some, List, [], ◌∷◌, ◌==◌,
  string_key, if◌then◌else◌, ℤ, pos, negsuc,
}
use session_scheduler.Errors.{Error, is_validation_error}
use session_scheduler.Tx.{Res, ok, err, Fault, Round}
use session_scheduler.Db.{User, Location, Db}
use session_scheduler.Keyvalue.{
  KeyValues, ExchangeFaults, exchange_bool, set, set_bool, get, get_bool_def,
}
use session_scheduler.Schedule.Heuristic.{SliceSort}
use session_scheduler.Schedule.Snapshot.{make_schedule}
use session_scheduler.Timetable.Days.{timetable_set_locked_slots}
use session_scheduler.Web.{
  World, Request, Driver, Response, redirect, render, silent, Requested, requested,
  user_find_failed, panics, request_user, form_value, after_change, flag_active,
  flag_schedule_active, flag_verification_code_sent, flag_require_verification, flag_test_mode,
  verification_code, is_admin,
}
use session_scheduler.Web.Form.{form_check_to_slot_id}

-- `newval`
pub record Statuses : Type 0 where
  pub website : Bool
  pub schedule : Bool
  pub verification : Bool
  pub vcode_sent : Bool

abbrev pub no_status : Statuses
no_status = record { website = false; schedule = false; verification = false; vcode_sent = false }

-- One status of the form, if it is known.
abbrev pub add_status : String → Statuses → Option Statuses
add_status status s =
    if status == "websiteActive"
    then some (record s { website = true })
    else if status == "scheduleActive"
    then some (record s { schedule = true })
    else if status == "vcodeSent"
    then some (record s { vcode_sent = true })
    else if status == "requireVerification"
    then some (record s { verification = true })
    else none

unfoldable pub read_statuses : List String → Statuses → Option Statuses
read_statuses [] s = some s
read_statuses (status ∷ statuses) s = elim (add_status status s) [
  | none ↦ none
  | some s' ↦ read_statuses statuses s'
]

-- The value that Go's ExchangeBool returns beside an error is false.
abbrev pub old_bool : Res Bool → Bool
old_bool (ok b) = b
old_bool (err e) = false

abbrev pub same_bool : Bool → Bool → Bool
same_bool true b = b
same_bool false b = not b

-- flashAccumulator: the error of ExchangeBool is dropped.
unfoldable pub accumulate :
    ExchangeFaults
    → (key : String) → Bool
    → (ftt ttf : String) → String × KeyValues
    → String × KeyValues
unfolding exchange_bool
accumulate fs key nv ftt ttf (flash, kvs) =
    let (old, kvs') = exchange_bool fs key nv kvs in
    let news = if nv then ftt else ttf in
    (
      if same_bool (old_bool old) nv
          then flash
          else if flash == ""
          then news
          else join flash (join ", " news),
      kvs',
    )

pub record StatusFaults : Type 0 where
  pub website : ExchangeFaults
  pub schedule : ExchangeFaults
  pub vcode_sent : ExchangeFaults
  pub verification : ExchangeFaults

unfoldable pub exchange_statuses : StatusFaults → Statuses → KeyValues → String × KeyValues
unfolding accumulate
exchange_statuses fs s kvs =
    accumulate fs.verification flag_require_verification s.verification "Verification+Required"
      "Verification+Not+Required"
      (accumulate fs.vcode_sent flag_verification_code_sent s.vcode_sent "Verification+Code+Sent"
        "Verification+Code+Not+Sent"
        (accumulate fs.schedule flag_schedule_active s.schedule "Schedule+Activated"
          "Schedule+Deactivated"
          (accumulate fs.website flag_active s.website "Website+Activated" "Website+Deactivated"
            ("", kvs))))

abbrev pub use_statuses : StatusFaults → World → Option Statuses → Response × World
use_statuses fs w none =
    (redirect "console?flash=Invalid form result: Report this error to the admin", w)
use_statuses fs w (some s) =
    let (flash, kvs) = exchange_statuses fs s w.kvs in
    (redirect (join "console?flash=" flash), record w { kvs = kvs })

-- action "setstatus"
unfoldable pub set_status : StatusFaults → Request → World → Response × World
unfolding read_statuses exchange_statuses
set_status fs req w = use_statuses fs w (read_statuses (req.form "status") no_status)

abbrev pub code_flash : Res (Unit {0}) → String
code_flash (ok u) = "Verification+code+updated"
code_flash (err e) = "Verification+code+not+updated"

-- action "setvcode"
unfoldable pub set_vcode : Option Fault → Request → World → Response × World
unfolding set
set_vcode f req w =
    let newvcode = form_value req "vcode" in
    let (r, kvs) = set f verification_code newvcode w.kvs in
    if newvcode == ""
    then (render "console?flash=Invalid+Vcode", w)
    else (redirect (join "console?flash=" (code_flash r)), record w { kvs = kvs })

abbrev pub schedule_flash : Res (Unit {0}) → Response
schedule_flash (ok u) = redirect "console?flash=Schedule+Finished"
schedule_flash (err e) = redirect "console?flash=Error+starting+schedule: See Log"

-- action "runschedule". Of the options that MakeSchedule (main.go) reads, the search uses none.
unfoldable pub run_schedule :
    (String → String → Bool)
    → SliceSort
    → (reading writing : List Round) → World
    → Option (Response × World)
unfolding make_schedule after_change
run_schedule text_le sorter reading writing w =
    after_change w (make_schedule text_le sorter reading writing w.event) schedule_flash

abbrev pub locked_flash : Res (Unit {0}) → Response
locked_flash (ok u) = redirect "console?flash=Locked+slots+updated"
locked_flash (err e) = redirect "console?flash=Error+setting+slots"

-- action "setLocked"
unfoldable pub set_locked : List Round → Request → World → Option (Response × World)
unfolding timetable_set_locked_slots after_change form_check_to_slot_id
set_locked rs req w =
    after_change w
      (timetable_set_locked_slots (form_check_to_slot_id (req.form "locked")) rs w.event)
      locked_flash

-- The part of HandleTestAction behind the test mode.
abbrev pub disable_flash : Res (Unit {0}) → String
disable_flash (ok u) = "Test+mode+disabled"
disable_flash (err e) = "Set+test+mode+failed"

abbrev pub enable_flash : Res (Unit {0}) → String
enable_flash (ok u) = "Test+mode+enabled"
enable_flash (err e) = "Set+test+mode+failed"

abbrev pub test_page : String → Response
test_page flash = redirect (join "/admin/test?flash=" flash)

unfoldable pub test_action : (read write : Option Fault) → Request → World → Response × World
unfolding get_bool_def set_bool
test_action read write req w =
    let (enabled, kvs_on) = set_bool write flag_test_mode true w.kvs in
    let (disabled, kvs_off) = set_bool write flag_test_mode false w.kvs in
    if get_bool_def read flag_test_mode w.kvs
    then if req.action == "disabletest"
      then (test_page (disable_flash disabled), record w { kvs = kvs_off })
      else if req.action == "enabletest"
      then (test_page "Test+mode+already+disabled", w)
      else (silent, w)
    else if not (req.action == "enabletest")
    then (silent, w)
    else if not (form_value req "confirm" == "SafetyOff")
    then (render "admin/test", w)
    else (test_page (enable_flash enabled), record w { kvs = kvs_on })

-- RequestUser at the start of the handlers for administrators, and their guard.
abbrev pub for_admin :
    (World → Option (Response × World)) → Option (Requested × World) → Option (Response × World)
for_admin act none = none
for_admin act (some (user_find_failed e, w)) = some (panics e, w)
for_admin act (some (requested u, w)) =
    let acted = act w in if is_admin u then acted else some (silent, w)

unfoldable pub handle_test_action :
    (read write : Option Fault) → Request → Driver → World → Option (Response × World)
unfolding request_user test_action is_admin
handle_test_action read write req dr w =
    for_admin (λ w'. some (test_action read write req w')) (request_user req dr w)

abbrev pub parsed_duration : Option ℕ → ℕ
parsed_duration none = 5 * 1000000000
parsed_duration (some d) = d

-- The text is parsed only where Get has failed, and is then the empty one. `parse` is
-- time.ParseDuration, `none` for its error.
unfoldable pub get_search_duration : (String → Option ℕ) → Option Fault → KeyValues → ℕ
unfolding get
get_search_duration parse f kvs = elim (get f "EventSearchDuration" kvs) [
  | ok text ↦ 0
  | err e ↦ parsed_duration (parse "")
]

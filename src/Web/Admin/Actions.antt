-- ===== src/Web/Admin/Actions.antt =====
-- HandleAdminAction (handle_admin.go): the actions on locations, and which action is taken.
pub mod Laws
use Prim.Native.String.{◌++◌ as join}
use session_scheduler.Base.{
  ℕ, String, Bool, true, false, Option, none, some, List, ◌==◌, string_key, if◌then◌else◌, ℤ, pos,
  negsuc,
}
use session_scheduler.Errors.{Error, is_validation_error}
use session_scheduler.Tx.{Res, ok, err, Fault, Round}
use session_scheduler.Db.{Location, Db}
use session_scheduler.Location.{new_location, location_update}
use session_scheduler.Discussion.Full.{zero_location}
use session_scheduler.Schedule.Heuristic.{SliceSort}
use session_scheduler.Web.{
  World, Request, Driver, Response, redirect, silent, request_user, form_value, after_change,
}
use session_scheduler.Web.Form.{atoi}
use session_scheduler.Web.Admin.{
  StatusFaults, run_schedule, set_vcode, set_status, set_locked, for_admin,
}

-- A capacity below 0 is refused as 0 is, and an identifier below 1 is no location's.
abbrev pub natural : ℤ → ℕ
natural (pos n) = n
natural (negsuc n) = 0

-- What the form makes: a location, or the flash that says what is wrong.
pub data Filled : Type 0 where
  filled : Location → Filled
  flashed : String → Filled

abbrev pub with_id : Option ℤ → Location → Filled
with_id none l = flashed "?flash=Website+Error"
with_id (some n) l = filled (record l { location_id = natural n })

abbrev pub with_capacity : Option ℤ → Location → Filled
with_capacity none l = flashed "?flash=Capacity+must+be+a+number"
with_capacity (some n) l = filled (record l { is_place = true; capacity = natural n })

abbrev pub fill_capacity : Request → Filled → Filled
unfolding atoi
fill_capacity req (flashed flash) = flashed flash
fill_capacity req (filled l) =
    let cstring = form_value req "locCapacity" in
    if cstring == "" then filled l else with_capacity (atoi cstring) l

-- With an identifier for updateLocation.
unfoldable pub read_location : (updates : Bool) → Request → Filled
unfolding atoi
read_location updates req =
    let l = record zero_location {
      location_name = form_value req "locName";
      location_url = form_value req "locURL";
    } in
    fill_capacity req (if updates then with_id (atoi (form_value req "locID")) l else filled l)

unfoldable pub location_answer : {A : Type 0} → Res A → Response
unfolding is_validation_error
location_answer (ok a) = redirect "locations"
location_answer (err e) =
    if is_validation_error (some e)
    then redirect "locations?flash=Validation+Error"
    else redirect "locations?flash=Internal+Error"

unfoldable pub use_location :
    (updates : Bool) → List Round → World → Filled → Option (Response × World)
unfolding new_location location_update after_change location_answer
use_location updates rs w (flashed flash) = some (redirect (join "locations" flash), w)
use_location true rs w (filled l) = after_change w (location_update l rs w.event) location_answer
use_location false rs w (filled l) = after_change w (new_location l rs w.event) location_answer

-- What the drivers report to the actions of administrators.
pub record AdminFaults : Type 0 where
  pub reading : List Round
  pub writing : List Round
  pub code : Option Fault
  pub statuses : StatusFaults

module _ (text_le : String → String → Bool) (sorter : SliceSort) (fs : AdminFaults) where
  -- resetEventData is let through, and has no case.
  unfoldable pub admin_action : Request → Driver → World → Option (Response × World)
  unfolding run_schedule set_vcode set_status set_locked use_location read_location
  admin_action req dr w =
      if req.action == "runschedule"
      then run_schedule text_le sorter fs.reading fs.writing w
      else if req.action == "setvcode"
      then some (set_vcode fs.code req w)
      else if req.action == "setstatus"
      then some (set_status fs.statuses req w)
      else if req.action == "setLocked"
      then set_locked dr.change req w
      else if req.action == "newLocation"
      then use_location false dr.change w (read_location false req)
      else if req.action == "updateLocation"
      then use_location true dr.change w (read_location true req)
      else some (silent, w)

  unfoldable pub handle_admin_action : Request → Driver → World → Option (Response × World)
  unfolding request_user admin_action
  handle_admin_action req dr w = for_admin (admin_action req dr) (request_user req dr w)

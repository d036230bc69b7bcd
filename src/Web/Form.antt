-- ===== src/Web/Form.antt =====
-- Reading a form: strconv.Atoi, FormCheckToSlotID (handle_discussion.go) and parseProfile
-- (handle_user.go).
use session_scheduler.Base.{
  ℕ, zero, suc, ◌+◌, ◌-◌, ◌*◌, String, Bool, ◌&&◌, Option, none, some, List, [], ◌∷◌, ltb, leb,
  ◌==◌, nat_key, string_key, if◌then◌else◌, ℤ, pos, negsuc,
}
use session_scheduler.Errors.{codes}
use session_scheduler.Db.{User}
use session_scheduler.Web.{Request, form_value}

abbrev is_digit : ℕ → Bool
is_digit c = leb b'0' c && leb c b'9'

unfoldable pub digits : ℕ → List ℕ → Option ℕ
digits acc [] = some acc
digits acc (c ∷ cs) =
    let rest = digits (acc * 10 + (c - b'0')) cs in if is_digit c then rest else none

-- At least one digit.
unfoldable pub unsigned : List ℕ → Option ℕ
unfolding digits
unsigned [] = none
unsigned (c ∷ cs) = digits 0 (c ∷ cs)

abbrev pub negate : ℕ → ℤ
negate zero = pos 0
negate (suc n) = negsuc n

-- 2 ^ 63
abbrev pub int_bound : ℕ
int_bound = 9223372036854775808

abbrev pub as_positive : Option ℕ → Option ℤ
as_positive none = none
as_positive (some n) = if ltb n int_bound then some (pos n) else none

abbrev pub as_negative : Option ℕ → Option ℤ
as_negative none = none
as_negative (some n) = if leb n int_bound then some (negate n) else none

unfoldable pub atoi_codes : List ℕ → Option ℤ
unfolding unsigned
atoi_codes [] = none
atoi_codes (c ∷ cs) =
    if c == b'-'
    then as_negative (unsigned cs)
    else if c == b'+'
    then as_positive (unsigned cs)
    else as_positive (unsigned (c ∷ cs))

unfoldable pub atoi : String → Option ℤ
unfolding atoi_codes codes
atoi s = atoi_codes (codes s)

-- The slots are always a slice, empty or not, and never an error.
unfoldable pub form_check_to_slot_id : List String → List String
form_check_to_slot_id form_data = form_data

abbrev pub set_location : Option String → User → User
set_location none user = user
set_location (some name) user = record user { location = some name }

-- LoadLocation, which is time.LoadLocation, is a parameter.
unfoldable pub parse_profile : (String → Option String) → Request → User → User
parse_profile load_location req user =
    let named = record user {
      real_name = form_value req "RealName";
      company = form_value req "Company";
      email = form_value req "Email";
      description = form_value req "Description";
    } in
    let loc = form_value req "Location" in
    if loc == "" then named else set_location (load_location loc) named

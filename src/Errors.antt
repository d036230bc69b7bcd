-- ===== src/Errors.antt =====
-- event/errors.go, and the error values of sqlite3 and database/sql that the package tells apart
-- (event/eventdb.go).
use Prim.Native.Char.{code}
use session_scheduler.Base.{
  ℕ, String, Bool, true, false, ◌&&◌, ◌||◌, Option, none, some, List, [], ◌∷◌, leb, ◌==◌,
  if◌then◌else◌, nat_key,
}

-- The codes of a sqlite3.Error: `Code` for busy and locked, `ExtendedCode` for the constraints.
pub data SqliteCode : Type 0 where
  busy locked constraint_unique constraint_primary_key constraint_foreign_key other_code :
      SqliteCode

pub data Error : Type 0 where
  internal no_username username_is_email no_email no_password : Error
  password_too_short password_incorrect username_exists email_exists : Error
  credentials_incorrect no_title title_exists no_desc invalid_interest : Error
  too_many_discussions all_slots_locked in_progress moderated_discussions : Error
  user_not_found discussion_not_found location_not_found day_not_found : Error
  user_or_discussion_not_found location_no_name location_invalid_capacity day_no_name : Error
  -- sql.ErrNoRows
  no_rows : Error
  sqlite : SqliteCode → Error
  -- fmt.Errorf with no error inside, and fmt.Errorf("%s: %v", ...)
  message : String → Error
  wrapped : String → Error → Error

-- `isSqliteErrorCode` at the codes that each caller passes.
unfoldable pub should_retry : Error → Bool
should_retry (sqlite busy) = true
should_retry (sqlite locked) = true
should_retry _ = false

unfoldable pub is_error_constraint_unique : Error → Bool
is_error_constraint_unique (sqlite constraint_unique) = true
is_error_constraint_unique _ = false

unfoldable pub is_error_foreign_key : Error → Bool
is_error_foreign_key (sqlite constraint_foreign_key) = true
is_error_foreign_key _ = false

unfoldable pub err_or_retry : String → Error → Error
unfolding should_retry
err_or_retry comment e = if should_retry e then e else wrapped comment e

-- `ValidationError` is declared as the interface `error` itself, so the type assertion
-- `err.(ValidationError)` fails at a nil error only.
unfoldable pub is_validation_error : Option Error → Bool
is_validation_error none = false
is_validation_error (some e) = true

-- unicode.IsSpace
unfoldable pub is_space : ℕ → Bool
is_space c =
    (leb 9 c && leb c 13)
    || c == 32
    || c == 0x85
    || c == 0xA0
    || c == 0x1680
    || (leb 0x2000 c && leb c 0x200A)
    || c == 0x2028
    || c == 0x2029
    || c == 0x202F
    || c == 0x205F
    || c == 0x3000

unfoldable pub codes : String → List ℕ
codes String.[] = []
codes (String.◌∷◌ c s) = code c ∷ codes s

unfoldable pub all_whitespace_codes : List ℕ → Bool
unfolding is_space
all_whitespace_codes [] = true
all_whitespace_codes (c ∷ s) = is_space c && all_whitespace_codes s

unfoldable pub all_whitespace : String → Bool
unfolding all_whitespace_codes codes
all_whitespace s = all_whitespace_codes (codes s)

-- The character classes of `emailRE`: [a-zA-Z0-9], [a-zA-Z0-9_.+-], [a-zA-Z0-9-], [a-zA-Z0-9-.].
unfoldable pub is_alphanumeric : ℕ → Bool
is_alphanumeric c =
    (leb b'a' c && leb c b'z') || (leb b'A' c && leb c b'Z') || (leb b'0' c && leb c b'9')

unfoldable pub is_local : ℕ → Bool
unfolding is_alphanumeric
is_local c = is_alphanumeric c || c == b'_' || c == b'.' || c == b'+' || c == b'-'

unfoldable pub is_label : ℕ → Bool
unfolding is_alphanumeric
is_label c = is_alphanumeric c || c == b'-'

unfoldable pub is_domain : ℕ → Bool
unfolding is_label
is_domain c = is_label c || c == b'.'

-- `emailRE` as an automaton: the part before the @, the first label, and the rest of the domain.
-- Neither @ nor the dot after the first label is in the class before it, so no step has a choice.
-- `some_seen` says that the class before has matched at least once.
unfoldable pub email_rest : Bool → List ℕ → Bool
unfolding is_domain
email_rest some_seen [] = some_seen
email_rest some_seen (c ∷ s) = is_domain c && email_rest true s

unfoldable pub email_label : Bool → List ℕ → Bool
unfolding is_label email_rest
email_label some_seen [] = false
email_label some_seen (c ∷ s) =
    let again = email_label true s in
    if is_label c then again else some_seen && c == b'.' && email_rest false s

unfoldable pub email_local : Bool → List ℕ → Bool
unfolding is_local email_label
email_local some_seen [] = false
email_local some_seen (c ∷ s) =
    let again = email_local true s in
    if is_local c then again else some_seen && c == b'@' && email_label false s

unfoldable pub is_email_address : String → Bool
unfolding email_local codes
is_email_address s = email_local false (codes s)

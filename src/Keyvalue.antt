-- ===== src/Keyvalue.antt =====
-- keyvalue/keyvalue.go: a store of texts under keys, the application's configuration.
-- The table keyvalue_keyvalues is the list of its rows. What the driver does beside the SQL is an
-- argument: the error, if any, that a statement, a begin or a commit meets.
pub mod Laws
pub mod Refinement
use session_scheduler.Base.{
  String, Bool, true, false, Option, none, some, List, [], ◌∷◌, any, ◌==◌, string_key,
  if◌then◌else◌,
}
use session_scheduler.Errors.{Error, no_rows, wrapped}
use session_scheduler.Sql.{delete_where}
use session_scheduler.Tx.{Res, ok, err, Fault, fault_error, is_no_rows}

abbrev pub KeyValues : Type 0
KeyValues = List (String × String)

abbrev pub look_up : String → KeyValues → Res String
look_up key [] = err no_rows
look_up key ((k, v) ∷ kvs) = if k == key then ok v else look_up key kvs

-- `none` for a driver that reports no error.
unfoldable pub get : Option Fault → String → KeyValues → Res String
get none key kvs = look_up key kvs
get (some f) key kvs = err (fault_error f)

-- on conflict(key) do update set value=excluded.value
abbrev pub put : String → String → KeyValues → KeyValues
put key value [] = (key, value) ∷ []
put key value ((k, v) ∷ kvs) = if k == key then (k, value) ∷ kvs else (k, v) ∷ put key value kvs

unfoldable pub set : Option Fault → String → String → KeyValues → Res (Unit {0}) × KeyValues
set none key value kvs = (ok tt, put key value kvs)
set (some f) key value kvs = (err (fault_error f), kvs)

-- The transaction of `Exchange` cannot be seen half done.
pub record ExchangeFaults : Type 0 where
  pub begin : Option Fault
  pub get : Option Fault
  pub set : Option Fault
  pub commit : Option Fault

-- if err != nil && err != ErrNoRows
abbrev pub old_value : Res String → Res String
old_value (ok v) = ok v
old_value (err e) = if is_no_rows e then ok "" else err (wrapped "Getting old value for key" e)

-- A commit that fails is not reported: the old value is returned, and nothing is stored.
abbrev pub commit_exchange :
    Option Fault → String → KeyValues → Res (Unit {0}) × KeyValues → Res String × KeyValues
commit_exchange none old kvs (ok u, kvs') = (ok old, kvs')
commit_exchange (some f) old kvs (ok u, kvs') = (ok old, kvs)
commit_exchange commit old kvs (err e, kvs') = (err (wrapped "Setting key" e), kvs)

unfoldable pub exchange_value :
    ExchangeFaults → String → String → KeyValues → Res String × KeyValues
unfolding get set
exchange_value fs key value kvs = elim (old_value (get fs.get key kvs)) [
  | err e ↦ (err e, kvs)
  | ok old ↦ commit_exchange fs.commit old kvs (set fs.set key value kvs)
]

unfoldable pub exchange : ExchangeFaults → String → String → KeyValues → Res String × KeyValues
unfolding exchange_value
exchange fs key value kvs = elim fs.begin [
  | some f ↦ (err (wrapped "Starting transaction" (fault_error f)), kvs)
  | none ↦ exchange_value fs key value kvs
]

unfoldable pub unset : Option Fault → String → KeyValues → Res (Unit {0}) × KeyValues
unfolding delete_where
unset none key kvs = (ok tt, delete_where (λ (kv : String × String). kv.0 == key) kvs)
unset (some f) key kvs = (err (fault_error f), kvs)

unfoldable pub bool_to_string : Bool → String
bool_to_string val = if val then "true" else "false"

unfoldable pub string_to_bool : String → Bool
string_to_bool val = val == "true"

-- The value that Go's Get returns beside an error is "".
abbrev pub value_of : Res String → String
value_of (ok v) = v
value_of (err e) = ""

unfoldable pub get_bool_def : Option Fault → String → KeyValues → Bool
unfolding string_to_bool get
get_bool_def f key kvs = string_to_bool (value_of (get f key kvs))

unfoldable pub set_bool : Option Fault → String → Bool → KeyValues → Res (Unit {0}) × KeyValues
unfolding bool_to_string set
set_bool f key val kvs = set f key (bool_to_string val) kvs

abbrev pub bool_result : Res String → Res Bool
bool_result (ok v) = ok (string_to_bool v)
bool_result (err e) = err e

unfoldable pub exchange_bool : ExchangeFaults → String → Bool → KeyValues → Res Bool × KeyValues
unfolding bool_to_string exchange string_to_bool
exchange_bool fs key val kvs =
    let (old, kvs') = exchange fs key (bool_to_string val) kvs in (bool_result old, kvs')

-- FlagValue, without its pointer to the store. A validator answers with an error, if any.
pub record FlagValue : Type 0 where
  pub key : String
  pub validator : Option (String → Option Error)

abbrev pub validate : Option (String → Option Error) → String → Option Error
validate none value = none
validate (some check) value = check value

unfoldable pub flag_set : FlagValue → Option Fault → String → KeyValues → Res (Unit {0}) × KeyValues
unfolding set
flag_set fv f value kvs = elim (validate fv.validator value) [
  | some e ↦ (err e, kvs)
  | none ↦ set f fv.key value kvs
]

unfoldable pub flag_string : FlagValue → Option Fault → KeyValues → String
unfolding get
flag_string fv f kvs = value_of (get f fv.key kvs)

abbrev pub first_validator : List (String → Option Error) → Option (String → Option Error)
first_validator [] = none
first_validator (v ∷ vs) = some v

unfoldable pub get_flag_value : String → List (String → Option Error) → FlagValue
get_flag_value key validators = record { key = key; validator = first_validator validators }

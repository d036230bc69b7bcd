-- ===== src/Keyvalue/Refinement.antt =====
-- The store of keyvalue/keyvalue.go beside what it stands for: a function from keys to texts.
use session_scheduler.Base.{
  String, Bool, true, false, ◌&&◌, ◌≡◌, refl, ap, ◌∙◌, Option, none, some, List, [], ◌∷◌, ◌==◌,
  ==_iff, string_key, if◌then◌else◌, arith,
}
use session_scheduler.Errors.{wrapped}
use session_scheduler.Sql.{select, delete_where}
use session_scheduler.Tx.{Res, ok, err, Fault, fault_error, is_busy, is_locked, is_broken}
use session_scheduler.Keyvalue.{
  KeyValues, look_up, put, get, set, unset, exchange, exchange_value, ExchangeFaults, old_value,
  commit_exchange, value_of,
}
use session_scheduler.Keyvalue.Laws.{old_value-look_up}

abbrev pub View : Type 0
View = String → Option String

abbrev pub found : Res String → Option String
found (ok v) = some v
found (err e) = none

-- What a store holds under each key.
abbrev pub view : KeyValues → View
view kvs key = found (look_up key kvs)

-- A call, with what the driver reports at each of its steps.
pub data Call : Type 0 where
  getting : Option Fault → (key : String) → Call
  setting : Option Fault → (key value : String) → Call
  unsetting : Option Fault → (key : String) → Call
  exchanging : (begin reading writing commit : Option Fault) → (key value : String) → Call

-- A text for a call that succeeds, "" where it returns no text.
abbrev pub reported : Res (Unit {0}) → Option String
reported (ok u) = some ""
reported (err e) = none

abbrev pub faults : (begin reading writing commit : Option Fault) → ExchangeFaults
faults b g s c = record { begin = b; get = g; set = s; commit = c }

unfoldable pub call : Call → KeyValues → Option String × KeyValues
call (getting f key) kvs = (found (get f key kvs), kvs)
call (setting f key value) kvs = let (r, kvs') = set f key value kvs in (reported r, kvs')
call (unsetting f key) kvs = let (r, kvs') = unset f key kvs in (reported r, kvs')
call (exchanging b g s c key value) kvs =
    let (r, kvs') = exchange (faults b g s c) key value kvs in (found r, kvs')

unfoldable pub run : List Call → KeyValues → List (Option String) × KeyValues
unfolding call
run [] kvs = ([], kvs)
run (op ∷ ops) kvs =
    let (answer, kvs') = call op kvs in
    let (answers, kvs'') = run ops kvs' in (answer ∷ answers, kvs'')

abbrev pub is_quiet : Option Fault → Bool
is_quiet none = true
is_quiet (some f) = false

abbrev pub assign : String → Option String → View → View
assign key value v other = if key == other then value else v other

abbrev pub text_or_empty : Option String → String
text_or_empty none = ""
text_or_empty (some v) = v

-- What the call answers and does to the function. An exchange whose commit fails still answers.
unfoldable pub promise : Call → View → Option String × View
promise (getting f key) v = (if is_quiet f then v key else none, v)
promise (setting f key value) v =
    if is_quiet f then (some "", assign key (some value) v) else (none, v)
promise (unsetting f key) v = if is_quiet f then (some "", assign key none v) else (none, v)
promise (exchanging b g s c key value) v = (
  if is_quiet b && is_quiet g && is_quiet s then some (text_or_empty (v key)) else none,
  if is_quiet b && is_quiet g && is_quiet s && is_quiet c then assign key (some value) v else v,
)

unfoldable pub replay : List Call → View → List (Option String) × View
unfolding promise
replay [] v = ([], v)
replay (op ∷ ops) v =
    let (answer, v') = promise op v in let (answers, v'') = replay ops v' in (answer ∷ answers, v'')

view-put :
    (key value : String) (kvs : KeyValues) (other : String)
    → view (put key value kvs) other ≡ assign key (some value) (view kvs) other
view-put key value [] other = ground arith
view-put key value ((k, v) ∷ kvs) other =
    grind (arith, ==_iff k key, ==_iff k other, ==_iff key other, view-put key value kvs other)

view-delete :
    (key : String) (kvs : KeyValues) (other : String)
    → view (delete_where (λ (kv : String × String). kv.0 == key) kvs) other
      ≡ assign key none (view kvs) other
unfolding delete_where select
view-delete key [] other = ground arith
view-delete key ((k, v) ∷ kvs) other =
    grind (arith, ==_iff k key, ==_iff k other, ==_iff key other, view-delete key kvs other)

old_value-fault :
    (f : Fault)
    → old_value (err (fault_error f)) ≡ err (wrapped "Getting old value for key" (fault_error f))
old_value-fault is_busy = refl
old_value-fault is_locked = refl
old_value-fault is_broken = refl

value_of-found : (r : Res String) → value_of r ≡ text_or_empty (found r)
value_of-found (ok v) = refl
value_of-found (err e) = refl

old_value-view :
    (key : String) (kvs : KeyValues)
    → old_value (look_up key kvs) ≡ ok (text_or_empty (view kvs key))
old_value-view key kvs = old_value-look_up key kvs ∙ ap ok (value_of-found (look_up key kvs))

-- The answer of a call and what its store stands for.
abbrev seen : Option String × KeyValues → Option String × View
seen (a, kvs) = (a, view kvs)

-- What an exchange does once the old value is read.
abbrev written :
    (writing commit : Option Fault) (key value : String)
    → KeyValues
    → Res String
    → Option String × View
written s c key value kvs old =
    let after : Res String × KeyValues = elim old [
      | err e ↦ (err e, kvs)
      | ok was ↦ commit_exchange c was kvs (set s key value kvs)
    ] in
    (found after.0, view after.1)

exchange-promise :
    (b g s c : Option Fault) (key value : String) (kvs : KeyValues)
    → seen (call (exchanging b g s c key value) kvs)
      ≡ promise (exchanging b g s c key value) (view kvs)
unfolding call promise exchange exchange_value get set
exchange-promise (some f) g s c key value kvs = refl
exchange-promise none (some f) s c key value kvs =
    ap (written s c key value kvs) (old_value-fault f)
exchange-promise none none (some f) c key value kvs =
    ap (written (some f) c key value kvs) (old_value-view key kvs)
exchange-promise none none none (some f) key value kvs =
    ap (written none (some f) key value kvs) (old_value-view key kvs)
exchange-promise none none none none key value kvs =
    ap (written none none key value kvs) (old_value-view key kvs)
    ∙ (λ i. (some (text_or_empty (view kvs key)), λ other. view-put key value kvs other i))

call-promise : (op : Call) (kvs : KeyValues) → seen (call op kvs) ≡ promise op (view kvs)
unfolding call promise get set unset
call-promise (getting none key) kvs = refl
call-promise (getting (some f) key) kvs = refl
call-promise (setting none key value) kvs = λ i. (some "", λ other. view-put key value kvs other i)
call-promise (setting (some f) key value) kvs = refl
call-promise (unsetting none key) kvs = λ i. (some "", λ other. view-delete key kvs other i)
call-promise (unsetting (some f) key) kvs = refl
call-promise (exchanging b g s c key value) kvs = exchange-promise b g s c key value kvs

-- Any sequence of Get, Set, Unset and Exchange, with any faults of the driver, gives on the table
-- the answers that the same sequence gives on a function from keys to texts, and leaves the table
-- standing for the function that the sequence leaves.
pub run-replay :
    (ops : List Call) (kvs : KeyValues)
    → ((run ops kvs).0, view (run ops kvs).1) ≡ replay ops (view kvs)
unfolding run replay
run-replay [] kvs = refl
run-replay (op ∷ ops) kvs =
    ap (cons_answer (call op kvs).0) (run-replay ops (call op kvs).1)
    ∙ ap (λ (x : Option String × View). cons_answer x.0 (replay ops x.1)) (call-promise op kvs)
  where
    cons_answer : Option String → List (Option String) × View → List (Option String) × View
    cons_answer a (answers, v) = (a ∷ answers, v)

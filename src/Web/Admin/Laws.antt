-- ===== src/Web/Admin/Laws.antt =====
-- About the actions of administrators (handle_admin.go).
use session_scheduler.Base.{
  String, Bool, true, false, ◌≡◌, ◌≢◌, ◌⊎◌, inl, inr, refl, ap, sym, subst, ◌∙◌, none, some, List,
  string_key, Bool-cases,
}
use session_scheduler.Tx.{Res, ok, err}
use session_scheduler.Keyvalue.{
  KeyValues, ExchangeFaults, put, get, set, commit_exchange, exchange_value, exchange,
  exchange_bool, bool_to_string, get_bool_def,
}
use session_scheduler.Keyvalue.Laws.{
  old_value-look_up, look_up-put, look_up-put_ne, string_to_bool-bool_to_string,
}
use session_scheduler.Web.{
  World, Request, flag_active, flag_schedule_active, flag_verification_code_sent,
  flag_require_verification,
}
use session_scheduler.Web.Admin.Sent.{
  all_known, is_sent, as_sent, read_all_known, read_some_unknown,
}
use session_scheduler.Web.Admin.{
  Statuses, no_status, StatusFaults, read_statuses, accumulate, exchange_statuses, use_statuses,
  set_status,
}

-- The driver reports nothing in any of the four exchanges.
abbrev pub no_fault : ExchangeFaults
no_fault = record { begin = none; get = none; set = none; commit = none }

abbrev pub no_faults : StatusFaults
no_faults = record {
  website = no_fault;
  schedule = no_fault;
  vcode_sent = no_fault;
  verification = no_fault;
}

exchange_puts :
    (key value : String) (kvs : KeyValues) → (exchange no_fault key value kvs).1 ≡ put key value kvs
unfolding exchange exchange_value get set
exchange_puts key value kvs = ap (λ r. (step r).1) (old_value-look_up key kvs)
  where
    step : Res String → Res String × KeyValues
    step (err e) = (err e, kvs)
    step (ok old) = commit_exchange none old kvs (ok tt, put key value kvs)

accumulate_puts :
    (key : String) (b : Bool) (ftt ttf : String) (x : String × KeyValues) (kvs : KeyValues)
    → x.1 ≡ kvs
    → (accumulate no_fault key b ftt ttf x).1 ≡ put key (bool_to_string b) kvs
unfolding accumulate exchange_bool
accumulate_puts key b ftt ttf x kvs e =
    exchange_puts key (bool_to_string b) x.1 ∙ ap (put key (bool_to_string b)) e

-- The store after the four exchanges.
abbrev stored : Statuses → KeyValues → KeyValues
stored s kvs = put flag_require_verification (bool_to_string s.verification) (
    put flag_verification_code_sent (bool_to_string s.vcode_sent) (
      put flag_schedule_active (bool_to_string s.schedule)
        (put flag_active (bool_to_string s.website) kvs)))

statuses_stored :
    (s : Statuses) (kvs : KeyValues) → (exchange_statuses no_faults s kvs).1 ≡ stored s kvs
unfolding exchange_statuses
statuses_stored s kvs =
    let start : String × KeyValues = ("", kvs) in
    let site =
      accumulate no_fault flag_active s.website "Website+Activated" "Website+Deactivated" start in
    let plan =
      accumulate no_fault flag_schedule_active s.schedule "Schedule+Activated"
        "Schedule+Deactivated" site in
    let sent =
      accumulate no_fault flag_verification_code_sent s.vcode_sent "Verification+Code+Sent"
        "Verification+Code+Not+Sent" plan in
    accumulate_puts flag_require_verification s.verification "Verification+Required"
      "Verification+Not+Required" sent _
      (accumulate_puts flag_verification_code_sent s.vcode_sent "Verification+Code+Sent"
        "Verification+Code+Not+Sent" plan _
        (accumulate_puts flag_schedule_active s.schedule "Schedule+Activated" "Schedule+Deactivated"
          site _
          (accumulate_puts flag_active s.website "Website+Activated" "Website+Deactivated" start kvs
            refl)))

-- A flag that is put reads back, behind what is put of the others.
reads_put :
    (key : String) (b : Bool) (kvs : KeyValues)
    → get_bool_def none key (put key (bool_to_string b) kvs) ≡ b
unfolding get_bool_def get
reads_put key b kvs = rw (look_up-put key (bool_to_string b) kvs) (string_to_bool-bool_to_string b)

skips_put :
    (key other value : String) (kvs : KeyValues)
    → other ≢ key
    → get_bool_def none other (put key value kvs) ≡ get_bool_def none other kvs
unfolding get_bool_def get
skips_put key other value kvs ne = rw (look_up-put_ne key other value kvs ne) refl

-- The flags are different.
active_require : flag_active ≢ flag_require_verification
active_require e = cc

active_sent : flag_active ≢ flag_verification_code_sent
active_sent e = cc

active_schedule : flag_active ≢ flag_schedule_active
active_schedule e = cc

schedule_require : flag_schedule_active ≢ flag_require_verification
schedule_require e = cc

schedule_sent : flag_schedule_active ≢ flag_verification_code_sent
schedule_sent e = cc

sent_require : flag_verification_code_sent ≢ flag_require_verification
sent_require e = cc

-- What the four flags and another key read as in a store, and what stays.
abbrev Reads : Statuses → (other : String) → World → World → Type 0
Reads s other w w' =
    (get_bool_def none flag_active w'.kvs ≡ s.website)
    × (get_bool_def none flag_schedule_active w'.kvs ≡ s.schedule)
    × (get_bool_def none flag_verification_code_sent w'.kvs ≡ s.vcode_sent)
    × (get_bool_def none flag_require_verification w'.kvs ≡ s.verification)
    × (get none other w'.kvs ≡ get none other w.kvs)
    × (w'.event ≡ w.event)
    × (w'.sessions ≡ w.sessions)

known_statuses :
    (req : Request) (w : World) (s : Statuses) (other : String)
    → read_statuses (req.form "status") no_status ≡ some s
    → other ≢ flag_active
    → other ≢ flag_schedule_active
    → other ≢ flag_verification_code_sent
    → other ≢ flag_require_verification
    → Reads s other w (set_status no_faults req w).1
unfolding set_status
known_statuses req w s other h a b c d =
    let site = bool_to_string s.website in
    let plan = bool_to_string s.schedule in
    let sent = bool_to_string s.vcode_sent in
    let code = bool_to_string s.verification in
    let k₁ = put flag_active site w.kvs in
    let k₂ = put flag_schedule_active plan k₁ in
    let k₃ = put flag_verification_code_sent sent k₂ in
    subst (Reads s other w)
      (sym (
        ap (λ o. (use_statuses no_faults w o).1) h
        ∙ ap (λ k. record w { kvs = k }) (statuses_stored s w.kvs)))
      (
        skips_put flag_require_verification flag_active code k₃ active_require
            ∙ skips_put flag_verification_code_sent flag_active sent k₂ active_sent
            ∙ skips_put flag_schedule_active flag_active plan k₁ active_schedule
            ∙ reads_put flag_active s.website w.kvs,
        skips_put flag_require_verification flag_schedule_active code k₃ schedule_require
            ∙ skips_put flag_verification_code_sent flag_schedule_active sent k₂ schedule_sent
            ∙ reads_put flag_schedule_active s.schedule k₁,
        skips_put flag_require_verification flag_verification_code_sent code k₃ sent_require
            ∙ reads_put flag_verification_code_sent s.vcode_sent k₂,
        reads_put flag_require_verification s.verification k₃,
        unfold get in
            look_up-put_ne flag_require_verification other code k₃ d
            ∙ look_up-put_ne flag_verification_code_sent other sent k₂ c
            ∙ look_up-put_ne flag_schedule_active other plan k₁ b
            ∙ look_up-put_ne flag_active other site w.kvs a,
        refl,
        refl,
      )

-- After a form that has sent these statuses: what the four flags and another key read as, and what
-- stays.
abbrev pub HasStatuses : (sent : List String) (other : String) → World → World → Type 0
HasStatuses sent other w w' =
    (get_bool_def none flag_active w'.kvs ≡ is_sent "websiteActive" sent)
    × (get_bool_def none flag_schedule_active w'.kvs ≡ is_sent "scheduleActive" sent)
    × (get_bool_def none flag_verification_code_sent w'.kvs ≡ is_sent "vcodeSent" sent)
    × (get_bool_def none flag_require_verification w'.kvs ≡ is_sent "requireVerification" sent)
    × (get none other w'.kvs ≡ get none other w.kvs)
    × (w'.event ≡ w.event)
    × (w'.sessions ≡ w.sessions)

-- "setstatus", the driver reporting nothing. Where the form has sent known statuses only, each of
-- the four flags reads as set exactly if its status is among those sent, every other key of the
-- configuration reads as before, and the other stores are as they were. Where it has sent an
-- unknown one, nothing changes.
pub set_status-HasStatuses :
    (req : Request) (w : World) (other : String)
    → other ≢ flag_active
    → other ≢ flag_schedule_active
    → other ≢ flag_verification_code_sent
    → other ≢ flag_require_verification
    → ((all_known (req.form "status") ≡ true)
        × HasStatuses (req.form "status") other w (set_status no_faults req w).1)
      ⊎ ((all_known (req.form "status") ≡ false) × ((set_status no_faults req w).1 ≡ w))
unfolding set_status
set_status-HasStatuses req w other a b c d = elim (Bool-cases (all_known (req.form "status"))) [
  | inl known ↦ inl (
    known,
    known_statuses req w (as_sent (req.form "status") no_status) other
        (read_all_known (req.form "status") no_status known) a b c d,
  )
  | inr unknown ↦ inr (
    unknown,
    ap (λ o. (use_statuses no_faults w o).1)
        (read_some_unknown (req.form "status") no_status unknown),
  )
]

-- ===== src/Web/Admin/Sent.antt =====
-- The statuses that a form has sent, and how "setstatus" reads them (handle_admin.go).
use session_scheduler.Base.{
  String, Bool, true, false, ◌&&◌, ◌||◌, ◌≡◌, inl, inr, refl, ap, sym, subst, ◌∙◌, Option, none,
  some, List, [], ◌∷◌, any, ◌==◌, ==_iff, string_key, arith, Bool-cases,
}
use session_scheduler.Web.Admin.{Statuses, add_status, read_statuses}

-- The statuses that the form has a box for.
abbrev is_known : String → Bool
is_known status =
    status == "websiteActive"
    || status == "scheduleActive"
    || status == "vcodeSent"
    || status == "requireVerification"

abbrev pub all_known : List String → Bool
all_known [] = true
all_known (status ∷ statuses) = is_known status && all_known statuses

abbrev pub is_sent : String → List String → Bool
is_sent status = any (λ sent. sent == status)

-- Which flags are to be set: those whose status is among those sent, or that `s` has set.
abbrev pub as_sent : List String → Statuses → Statuses
as_sent statuses s = record {
  website = s.website || is_sent "websiteActive" statuses;
  schedule = s.schedule || is_sent "scheduleActive" statuses;
  verification = s.verification || is_sent "requireVerification" statuses;
  vcode_sent = s.vcode_sent || is_sent "vcodeSent" statuses;
}

or_true : (b : Bool) → (b || true) ≡ true
or_true true = refl
or_true false = refl

or_false : (b : Bool) → (b || false) ≡ b
or_false true = refl
or_false false = refl

-- A known status in front of the others.
read_known :
    (status : String) (statuses : List String) (s : Statuses)
    → is_known status ≡ true
    → ((t : Statuses) → read_statuses statuses t ≡ some (as_sent statuses t))
    → read_statuses (status ∷ statuses) s ≡ some (as_sent (status ∷ statuses) s)
unfolding read_statuses
read_known status statuses s k ih = elim (Bool-cases (status == "websiteActive")) [
  | inl e ↦ at "websiteActive" e (
      ih (record s { website = true })
      ∙ ap (λ b. some (record (as_sent statuses s) { website = b })) (sym (or_true s.website)))
  | inr n₁ ↦ elim (Bool-cases (status == "scheduleActive")) [
    | inl e ↦ at "scheduleActive" e (
        ih (record s { schedule = true })
        ∙ ap (λ b. some (record (as_sent statuses s) { schedule = b })) (sym (or_true s.schedule)))
    | inr n₂ ↦ elim (Bool-cases (status == "vcodeSent")) [
      | inl e ↦ at "vcodeSent" e (
          ih (record s { vcode_sent = true })
          ∙ ap (λ b. some (record (as_sent statuses s) { vcode_sent = b }))
              (sym (or_true s.vcode_sent)))
      | inr n₃ ↦ at "requireVerification" (ground arith) (
          ih (record s { verification = true })
          ∙ ap (λ b. some (record (as_sent statuses s) { verification = b }))
              (sym (or_true s.verification)))
    ]
  ]
]
  where
    at :
        (known : String)
        → (status == known) ≡ true
        → read_statuses (known ∷ statuses) s ≡ some (as_sent (known ∷ statuses) s)
        → read_statuses (status ∷ statuses) s ≡ some (as_sent (status ∷ statuses) s)
    at known e =
        subst (λ x. read_statuses (x ∷ statuses) s ≡ some (as_sent (x ∷ statuses) s))
          (sym ((==_iff status known).0 e))

pub read_all_known :
    (statuses : List String) (s : Statuses)
    → all_known statuses ≡ true
    → read_statuses statuses s ≡ some (as_sent statuses s)
unfolding read_statuses
read_all_known [] s k = sym λ i. some (record {
  website = or_false s.website i;
  schedule = or_false s.schedule i;
  verification = or_false s.verification i;
  vcode_sent = or_false s.vcode_sent i;
})
read_all_known (status ∷ statuses) s k =
    read_known status statuses s (ground arith) λ t. read_all_known statuses t (ground arith)

pub read_some_unknown :
    (statuses : List String) (s : Statuses)
    → all_known statuses ≡ false
    → read_statuses statuses s ≡ none
unfolding read_statuses
read_some_unknown [] s k = absurd (ground arith)
read_some_unknown (status ∷ statuses) s k =
    go (add_status status s) refl (λ t. read_some_unknown statuses t)
  where
    go :
        (o : Option Statuses)
        → add_status status s ≡ o
        → ((t : Statuses) → all_known statuses ≡ false → read_statuses statuses t ≡ none)
        → elim o [ none ↦ none | some s' ↦ read_statuses statuses s' ] ≡ none
    go none p ih = refl
    go (some t) p ih = ih t (ground arith)

-- ===== src/Web/Display/Laws.antt =====
-- About what is shown of a discussion, and to whom (display.go).
use session_scheduler.Base.{
  ℕ, String, Bool, true, ◌≡◌, refl, subst, Option, none, some, List, [], ◌∷◌, All, ◌==◌, ==_iff,
  string_key, arith, Bool-cases, inl, inr,
}
use session_scheduler.Sql.{first_where}
use session_scheduler.Tx.{ok, Round}
use session_scheduler.Db.{User, Discussion, Db}
use session_scheduler.Db.Keys.{is_discussion}
use session_scheduler.Discussion.Full.{DiscussionFull, discussion_find_by_id_full}
use session_scheduler.Discussion.Full.Laws.{discussion_find_by_id_full-FullOutcome}
use session_scheduler.Discussion.Moderation.{is_moderated, Reach, Reach-IsModerated}
use session_scheduler.Web.Display.{
  DiscussionDisplay, is_outsider, for_viewer, show_main, show_approved, discussion_get_display,
}

-- The title and the description that the templates print.
abbrev pub ShowsApproved : Discussion → DiscussionDisplay → Type 0
ShowsApproved d dd =
    (dd.full.discussion.title ≡ d.approved_title) × (dd.description_raw ≡ d.approved_description)

for_viewer_texts :
    (d e : Discussion) (cur : Option User) (interest : ℕ) (users : List User)
    (dd : DiscussionDisplay)
    → ShowsApproved e dd
    → ShowsApproved e (for_viewer d cur interest users dd)
for_viewer_texts d e none interest users dd h = h
for_viewer_texts d e (some cur) interest users dd h = elim (Bool-cases cur.is_admin) [
  | inl admin ↦ rw admin h
  | inr plain ↦ rw plain h
]

outsider_sees :
    (interest : ℕ) (users : List User) (df : DiscussionFull) (cur : Option User)
    (dd : DiscussionDisplay)
    → is_moderated df.discussion ≡ true
    → is_outsider cur df.discussion ≡ true
    → discussion_get_display interest users df cur ≡ some dd
    → ShowsApproved df.discussion dd
unfolding discussion_get_display
outsider_sees interest users df cur dd moderated outside h =
    elim (Bool-cases df.discussion.is_public) [
      | inl public ↦
          let same : for_viewer df.discussion cur interest users (show_main df) ≡ dd =
            ground arith in
          subst (ShowsApproved df.discussion) same (
            for_viewer_texts df.discussion df.discussion cur interest users (show_main df) (
              ground (arith, ==_iff df.discussion.approved_title df.discussion.title),
              ground (arith, ==_iff df.discussion.approved_description df.discussion.description),
            ))
      | inr hidden ↦ elim (Bool-cases (df.discussion.approved_title == "")) [
        | inl unapproved ↦ absurd (ground arith)
        | inr approved ↦
            let same : for_viewer df.discussion cur interest users (show_approved df) ≡ dd =
              ground arith in
            subst (ShowsApproved df.discussion) same (
              for_viewer_texts df.discussion df.discussion cur interest users (show_approved df)
                (refl, refl))
      ]
    ]

All-first_where :
    {A : Type 0} (P : A → Type 0) (q : A → Bool) (xs : List A) (x : A)
    → All P xs
    → first_where q xs ≡ some x
    → P x
unfolding first_where
All-first_where P q [] x h k = absurd (ground arith)
All-first_where P q (y ∷ ys) x h k = elim (Bool-cases (q y)) [
  | inl e ↦ let same : y ≡ x = ground arith in subst P same h.0
  | inr e ↦ All-first_where P q ys x h.1 (ground arith)
]

-- In every database that sequences of the operations on discussions lead to, a discussion that is
-- looked up without an error is shown to those who are neither administrators nor its owner with
-- the approved title and description, if at all.
pub outsiders_see_approved :
    (db db' : Db) (did : String) (rs : List Round) (df : DiscussionFull) (interest : ℕ)
    (users : List User) (cur : Option User) (dd : DiscussionDisplay)
    → Reach db
    → discussion_find_by_id_full did rs db ≡ some (some df, (ok tt, db'))
    → is_outsider cur df.discussion ≡ true
    → discussion_get_display interest users df cur ≡ some dd
    → ShowsApproved df.discussion dd
outsiders_see_approved db db' did rs df interest users cur dd reach found outside h =
    let (full, _) = discussion_find_by_id_full-FullOutcome did db rs db' (some df) (ok tt) found in
    outsider_sees interest users df cur dd
      (All-first_where (λ d. is_moderated d ≡ true) (is_discussion did) db.discussions df.discussion
        (Reach-IsModerated db reach) full.0)
      outside h

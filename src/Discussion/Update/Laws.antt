-- ===== src/Discussion/Update/Laws.antt =====
-- About DiscussionUpdate (event/discussion.go).
use session_scheduler.Base.{
  ℕ, String, Bool, if◌then◌else◌, true, false, ◌≡◌, ◌≢◌, ◌⊎◌, inl, inr, refl, ap, sym, subst, ◌∙◌,
  Option, none, some, List, [], ◌==◌, ==_iff, string_key, nat_key, arith, Bool-cases, Option-cases,
}
use session_scheduler.Sql.{first_where, update_where}
use session_scheduler.Sql.Rows.{first_where-none}
use session_scheduler.Errors.{Error}
use session_scheduler.Tx.{ok, Conn, Round, exec, get_row, ◌>>=◌, or_retry}
use session_scheduler.Tx.Atomic.{start}
use session_scheduler.Tx.Run.{>>=-ran, exec-ran, try_row-ran, pure-ran, try_row->>=-ran, try->>-ran}
use session_scheduler.Tx.Steady.{Steady, steady_rules, tx_loop_ran}
use session_scheduler.Db.{Discussion, Interest, Db}
use session_scheduler.Db.Keys.{is_discussion, has_discussion}
use session_scheduler.Db.Tables.{title_taken, upsert_interest}
use session_scheduler.User.{interest_max}
use session_scheduler.User.Interest.{set_interest_tx, user_interest}
use session_scheduler.User.Interest.Laws.{written, upsert_self, upsert_rest, upsert_other}
use session_scheduler.Discussion.Create.{check_discussion_params, user_is_verified}
use session_scheduler.Discussion.Update.{
  owner_info, with_owner, update_discussion, next_owner_is_verified, take_over,
  discussion_update_tx, discussion_update,
}

Steady-next_owner_is_verified :
    (disc : Discussion) (info : String × Bool) → Steady (next_owner_is_verified disc info)
unfolding next_owner_is_verified
Steady-next_owner_is_verified disc info = search steady_rules depth 8

Steady-discussion_update_tx : (disc : Discussion) → Steady (discussion_update_tx disc)
unfolding discussion_update_tx
Steady-discussion_update_tx disc = search (steady_rules, Steady-next_owner_is_verified) depth 8

owner_info-IsOf :
    (did owner : String) (b : Bool) (db : Db)
    → owner_info did db ≡ some (owner, b)
    → (user_is_verified owner db ≡ some b)
      × ((d : Discussion) × (first_where (is_discussion did) db.discussions ≡ some d)
          × (d.owner ≡ owner))
unfolding owner_info
owner_info-IsOf did owner b db h = go (first_where (is_discussion did) db.discussions) refl h
  where
    go :
        (o : Option Discussion)
        → first_where (is_discussion did) db.discussions ≡ o
        → with_owner db o ≡ some (owner, b)
        → (user_is_verified owner db ≡ some b)
          × ((d : Discussion) × (first_where (is_discussion did) db.discussions ≡ some d)
              × (d.owner ≡ owner))
    go none p k = absurd (ground arith)
    go (some d) p k = elim (Option-cases (user_is_verified d.owner db)) [
      | inl e ↦ absurd (ground arith)
      | inr (v, e) ↦ (ground arith, (d, p, ground arith))
    ]

-- The row that the call is to leave of `d`.
abbrev pub as_asked : Discussion → Bool → Discussion → Discussion
as_asked disc is_public d = record {
  discussion_id = d.discussion_id;
  owner = disc.owner;
  title = disc.title;
  description = disc.description;
  approved_title = if is_public then disc.title else d.approved_title;
  approved_description = if is_public then disc.description else d.approved_description;
  is_public = is_public;
}

-- What the update has met and done.
pub record IsUpdated (disc : Discussion) (is_public : Bool) (db db' : Db) : Type 0 where
  pub verified : user_is_verified disc.owner db ≡ some is_public
  pub unique : title_taken disc.discussion_id disc.title db ≡ false
  pub discussions :
      db'.discussions
      ≡ update_where (is_discussion disc.discussion_id) (as_asked disc is_public) db.discussions
  pub rest : db' ≡ record db { discussions = db'.discussions; interest = db'.interest }

module _ (disc : Discussion) (db : Db) where
  -- Before the update only the interest of a new owner is written.
  abbrev OnlyInterest : Db → Type 0
  OnlyInterest d = d ≡ record db { interest = d.interest }

  -- What becomes of the interest table: nothing if the owner stays, and otherwise full interest of
  -- the new owner and what every other pair of a user and a discussion had.
  abbrev pub IsHandedOver : (before : String) → Db → Type 0
  IsHandedOver before d =
      ((disc.owner ≡ before) × (d.interest ≡ db.interest))
      ⊎ ((disc.owner ≢ before)
          × (user_interest disc.owner disc.discussion_id d ≡ some interest_max)
          × ((uid did : String)
              → (disc.owner ≢ uid) ⊎ (disc.discussion_id ≢ did)
              → user_interest uid did d ≡ user_interest uid did db))

  IsHandedOver-same :
      (before : String) (d d' : Db)
      → d'.interest ≡ d.interest
      → IsHandedOver before d
      → IsHandedOver before d'
  unfolding user_interest
  IsHandedOver-same before d d' same (inl (kept, i)) = inl (kept, same ∙ i)
  IsHandedOver-same before d d' same (inr (new, full, others)) = inr (
    new,
    ap (reading disc.owner disc.discussion_id) same ∙ full,
    λ uid did ne. ap (reading uid did) same ∙ others uid did ne,
  )
    where
      reading : String → String → List Interest → Option ℕ
      reading uid did i = user_interest uid did (record db { interest = i })

  take_over-ran :
      (b : Bool) {c : Conn Db}
      → take_over disc (start db []) ≡ (ok b, c)
      → (d : Db) × (c ≡ start d [])
        × OnlyInterest d
        × (user_is_verified disc.owner db ≡ some b)
        × (user_interest disc.owner disc.discussion_id d ≡ some interest_max)
        × ((uid did : String)
            → (disc.owner ≢ uid) ⊎ (disc.discussion_id ≢ did)
            → user_interest uid did d ≡ user_interest uid did db)
  unfolding take_over set_interest_tx
  take_over-ran b {c} h =
      let (d, p, h₁) =
        try->>-ran "Setting interest for new owner"
          (upsert_interest (written disc.owner disc.discussion_id interest_max))
          (or_retry "Getting IsVerified for new owner"
            (exec (get_row (user_is_verified disc.owner))))
          db h in
      let (kept, found) =
        try_row-ran "Getting IsVerified for new owner" (user_is_verified disc.owner) d h₁ in
      let rest = upsert_rest disc.owner disc.discussion_id interest_max db d p in
      (
        d,
        kept,
        rest,
        unfold user_is_verified in subst (λ x. user_is_verified disc.owner x ≡ some b) rest found,
        upsert_self disc.owner disc.discussion_id interest_max db d p,
        λ uid did ne. upsert_other disc.owner disc.discussion_id interest_max db d uid did ne p,
      )

  next_owner-ran :
      (cur : String) (v b : Bool) {c : Conn Db}
      → owner_info disc.discussion_id db ≡ some (cur, v)
      → next_owner_is_verified disc (cur, v) (start db []) ≡ (ok b, c)
      → (d : Db) × (c ≡ start d [])
        × OnlyInterest d
        × (user_is_verified disc.owner db ≡ some b)
        × IsHandedOver cur d
  unfolding next_owner_is_verified
  next_owner-ran cur v b {c} info h = elim (Bool-cases (disc.owner == cur)) [
    | inl same ↦
        let e : disc.owner ≡ cur = (==_iff disc.owner cur).0 same in
        let (v≡b, kept) = pure-ran v b (start db []) c (ground arith) in
        (
          db,
          sym kept,
          refl,
          subst (λ x. user_is_verified x db ≡ some b) (sym e)
              ((owner_info-IsOf disc.discussion_id cur v db info).0 ∙ ap some v≡b),
          inl (e, refl),
        )
    | inr other ↦
        let (d, kept, rest, found, interested, others) = take_over-ran b (ground arith) in
        (
          d,
          kept,
          rest,
          found,
          inr ((λ e. ground (arith, other, ==_iff disc.owner cur, e)), interested, others),
        )
  ]

  update_discussion-ran :
      (b : Bool) (i : List Interest) (db' : Db)
      → user_is_verified disc.owner db ≡ some b
      → has_discussion disc.discussion_id db ≡ true
      → update_discussion disc b (record db { interest = i }) ≡ ok (db', tt)
      → IsUpdated disc b db db' × (db'.interest ≡ i)
  unfolding update_discussion
  update_discussion-ran b i db' verified exists h = (
    record {
      verified = verified;
      unique = ground arith;
      discussions = ground arith;
      rest = ground arith;
    },
    ground arith,
  )

  owner_info-exists :
      (info : String × Bool)
      → owner_info disc.discussion_id db ≡ some info
      → has_discussion disc.discussion_id db ≡ true
  unfolding owner_info
  owner_info-exists info h = elim (Bool-cases (has_discussion disc.discussion_id db)) [
    | inl e ↦ e
    | inr e ↦
        absurd
          (ground (arith, first_where-none (is_discussion disc.discussion_id) db.discussions e))
  ]

  -- The row of the discussion before, and what a change of its owner does.
  abbrev pub HandsOver : Db → Type 0
  HandsOver db' =
      (d : Discussion) × (first_where (is_discussion disc.discussion_id) db.discussions ≡ some d)
      × IsHandedOver d.owner db'

  discussion_update_tx-IsUpdated :
      (db' : Db)
      → discussion_update_tx disc (start db []) ≡ (ok tt, start db' [])
      → (b : Bool) × IsUpdated disc b db db' × HandsOver db'
  unfolding discussion_update_tx
  discussion_update_tx-IsUpdated db' h =
      let (info, known, h₁) =
        try_row->>=-ran "Getting info for owner of discussion" (owner_info disc.discussion_id)
          (λ info. next_owner_is_verified disc info >>= λ b. exec (update_discussion disc b)) db
          h in
      let (b, c, next, h₂) = >>=-ran (next_owner_is_verified disc info) _ h₁ in
      let (d, at, rest, verified, over) = next_owner-ran info.0 info.1 b known next in
      let (d', done, p) =
        exec-ran (update_discussion disc b) d
          (subst (λ c. exec (update_discussion disc b) c ≡ (ok tt, start db' [])) at h₂) in
      updated info b d db' known rest verified over
        (p ∙ ap (λ (x : Conn Db). ok (x.db, tt)) (sym done))
    where
      updated :
          (info : String × Bool) (b : Bool) (d db' : Db)
          → owner_info disc.discussion_id db ≡ some info
          → OnlyInterest d
          → user_is_verified disc.owner db ≡ some b
          → IsHandedOver info.0 d
          → update_discussion disc b d ≡ ok (db', tt)
          → (b : Bool) × IsUpdated disc b db db' × HandsOver db'
      updated info b d db' known rest verified over p =
          let (u, kept) =
            update_discussion-ran b d.interest db' verified (owner_info-exists info known)
              (subst (λ x. update_discussion disc b x ≡ ok (db', tt)) rest p) in
          let (_, (old, found, owned)) =
            owner_info-IsOf disc.discussion_id info.0 info.1 db known in
          (
            b,
            u,
            (
              old,
              found,
              subst (λ o. IsHandedOver o db') (sym owned)
                  (IsHandedOver-same info.0 d db' kept over),
            ),
          )

-- When DiscussionUpdate succeeds, the discussion has the given owner and texts, no other
-- discussion had the title, and it is public exactly if that owner is verified; the approved texts
-- become the new ones in that case and stay as they were otherwise. An owner other than before has
-- full interest in it, and nothing else changes: no other discussion, no interest of any other pair
-- of a user and a discussion, none at all where the owner stays, and no other table.
pub discussion_update_stores :
    (disc : Discussion) (rs : List Round) (db db' : Db)
    → discussion_update disc rs db ≡ some (ok tt, db')
    → (check_discussion_params disc ≡ none)
      × ((b : Bool) × IsUpdated disc b db db' × HandsOver disc db db')
unfolding discussion_update
discussion_update_stores disc rs db db' h = go (check_discussion_params disc) refl
  where
    go :
        (o : Option Error)
        → check_discussion_params disc ≡ o
        → (check_discussion_params disc ≡ none)
          × ((b : Bool) × IsUpdated disc b db db' × HandsOver disc db db')
    go (some e) p = absurd (ground arith)
    go none p =
        let ran : discussion_update_tx disc (start db []) ≡ (ok tt, start db' []) =
          tx_loop_ran (discussion_update_tx disc) (Steady-discussion_update_tx disc) rs db db' tt
            (ground arith) in
        (p, discussion_update_tx-IsUpdated disc db db' ran)

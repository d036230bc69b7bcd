-- ===== src/Discussion/Create/Laws.antt =====
-- About NewDiscussion (event/discussion.go): what it stores, and for whom.
use session_scheduler.Base.{
  ℕ, String, Bool, true, false, ◌≡◌, ◌<◌, ◌⊎◌, refl, ap, subst, Option, none, some, List, [], ◌∷◌,
  ◌++◌, string_key, nat_key, arith,
}
use session_scheduler.Sql.{count_where}
use session_scheduler.Errors.{Error}
use session_scheduler.Tx.{ok, Conn, Round, pure, throw, exec, get_row, ◌>>=◌, or_retry}
use session_scheduler.Tx.Atomic.{start}
use session_scheduler.Tx.Run.{check->>-ran, query->>=-ran, get_row->>=-ran, exec->>-ran}
use session_scheduler.Tx.Steady.{Steady, steady_rules, tx_loop_ran}
use session_scheduler.Db.{Discussion, Db}
use session_scheduler.Db.Keys.{is_owned_by, has_discussion}
use session_scheduler.Db.Tables.{insert_discussion, upsert_interest, title_taken}
use session_scheduler.User.{interest_max}
use session_scheduler.User.Interest.{set_interest_tx, user_interest}
use session_scheduler.User.Interest.Laws.{written, upsert_self, upsert_rest}
use session_scheduler.Discussion.Create.{
  max_discussions_per_user, check_discussion_params, user_is_admin, user_is_verified,
  check_discussion_limit, fresh_discussion, new_discussion_tx, new_discussion,
}

Steady-check_discussion_limit : (owner : String) (n : ℕ) → Steady (check_discussion_limit owner n)
unfolding check_discussion_limit
Steady-check_discussion_limit owner n = search steady_rules

Steady-new_discussion_tx : (did : String) (disc : Discussion) → Steady (new_discussion_tx did disc)
unfolding new_discussion_tx
Steady-new_discussion_tx did disc = search (steady_rules, Steady-check_discussion_limit) depth 14

-- What a call that stores a discussion has met and done.
pub record IsCreated (did : String) (disc d : Discussion) (db db' : Db) : Type 0 where
  pub allowed :
      (count_where (is_owned_by disc.owner) db.discussions < max_discussions_per_user)
      ⊎ (user_is_admin disc.owner db ≡ some true)
  pub verified : user_is_verified disc.owner db ≡ some d.is_public
  pub stored : d ≡ fresh_discussion did disc d.is_public
  pub fresh : has_discussion did db ≡ false
  pub unique : title_taken did disc.title db ≡ false
  pub added : db' ≡ record db { discussions = db.discussions ++ d ∷ []; interest = db'.interest }
  pub interested : user_interest disc.owner did db' ≡ some interest_max

module _ (did : String) (disc : Discussion) (db : Db) where
  check_discussion_limit-keeps :
      (n : ℕ) (c : Conn Db)
      → check_discussion_limit disc.owner n (start db []) ≡ (ok tt, c)
      → c ≡ start db []
  unfolding check_discussion_limit exec ◌>>=◌ or_retry get_row pure throw
  check_discussion_limit-keeps n c h = ground arith

  check_discussion_limit-ok :
      (n : ℕ)
      → (check_discussion_limit disc.owner n (start db [])).0 ≡ ok tt
      → (n < max_discussions_per_user) ⊎ (user_is_admin disc.owner db ≡ some true)
  unfolding check_discussion_limit exec ◌>>=◌ or_retry get_row pure throw
  check_discussion_limit-ok n h = ground arith

  insert-ran :
      (b : Bool) {db' : Db}
      → insert_discussion (fresh_discussion did disc b) db ≡ ok (db', tt)
      → (has_discussion did db ≡ false)
        × (title_taken did disc.title db ≡ false)
        × (db' ≡ record db { discussions = db.discussions ++ fresh_discussion did disc b ∷ [] })
  unfolding insert_discussion
  insert-ran b h = (ground arith, ground arith, ground arith)

  stored-IsCreated :
      (b : Bool) (d : Discussion) (d₁ d₂ db' : Db)
      → (count_where (is_owned_by disc.owner) db.discussions < max_discussions_per_user)
        ⊎ (user_is_admin disc.owner db ≡ some true)
      → user_is_verified disc.owner db ≡ some b
      → insert_discussion (fresh_discussion did disc b) db ≡ ok (d₁, tt)
      → upsert_interest (written disc.owner did interest_max) d₁ ≡ ok (d₂, tt)
      → pure (fresh_discussion did disc b) (start d₂ []) ≡ (ok d, start db' [])
      → IsCreated did disc d db db'
  unfolding pure
  stored-IsCreated b d d₁ d₂ db' allowed verified p₁ p₂ h =
      let (fresh, unique, added) = insert-ran b p₁ in
      let same : d₂ ≡ db' = ground arith in
      let made : fresh_discussion did disc b ≡ d = ground arith in
      let interested = upsert_self disc.owner did interest_max d₁ d₂ p₂ in
      let rest = upsert_rest disc.owner did interest_max d₁ d₂ p₂ in
      record {
        allowed = allowed;
        verified = rw verified (ap (λ (x : Discussion). some x.is_public) made);
        stored = ground arith;
        fresh = fresh;
        unique = unique;
        added = ground arith;
        interested =
            subst (λ x. user_interest disc.owner did x ≡ some interest_max) same interested;
      }

  new_discussion_tx-IsCreated :
      (d : Discussion) (db' : Db)
      → new_discussion_tx did disc (start db []) ≡ (ok d, start db' [])
      → IsCreated did disc d db db'
  unfolding new_discussion_tx
  new_discussion_tx-IsCreated d db' h =
      let count = count_where (is_owned_by disc.owner) db.discussions in
      let (limit, h₁) =
        check->>-ran (check_discussion_limit disc.owner count) _
          (check_discussion_limit-keeps count) (query->>=-ran _ _ _ db h) in
      let (b, verified, h₂) = get_row->>=-ran (user_is_verified disc.owner) _ db h₁ in
      let (d₁, p₁, h₃) = exec->>-ran (insert_discussion (fresh_discussion did disc b)) _ db h₂ in
      let (d₂, p₂, h₄) =
        exec->>-ran
          (upsert_interest
            (record { user_id = disc.owner; discussion_id = did; interest = interest_max }))
          _ d₁ (unfold set_interest_tx in h₃) in
      stored-IsCreated b d d₁ d₂ db' (check_discussion_limit-ok count limit) verified p₁ p₂ h₄

pub new_discussion_creates :
    (did : String) (disc d : Discussion) (rs : List Round) (db db' : Db)
    → new_discussion did disc rs db ≡ some (ok d, db')
    → (check_discussion_params disc ≡ none) × IsCreated did disc d db db'
unfolding new_discussion
new_discussion_creates did disc d rs db db' h = go (check_discussion_params disc) refl
  where
    go :
        (o : Option Error)
        → check_discussion_params disc ≡ o
        → (check_discussion_params disc ≡ none) × IsCreated did disc d db db'
    go (some e) p = absurd (ground arith)
    go none p =
        let ran : new_discussion_tx did disc (start db []) ≡ (ok d, start db' []) =
          tx_loop_ran (new_discussion_tx did disc) (Steady-new_discussion_tx did disc) rs db db' d
            (ground arith) in
        (p, new_discussion_tx-IsCreated did disc db d db' ran)

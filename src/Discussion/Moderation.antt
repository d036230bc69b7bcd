-- ===== src/Discussion/Moderation.antt =====
-- The rule that the comments on Discussion (event/discussion.go) give: what everyone may read of a
-- public discussion is what has been approved. It is followed through sequences of calls.
use session_scheduler.Base.{
  ℕ, String, Bool, true, false, not, ◌&&◌, ◌||◌, ◌≡◌, inl, inr, refl, ap, sym, subst, Option, none,
  some, List, [], ◌∷◌, ◌++◌, ◌==◌, ==_refl, string_key, All, All-append, arith,
}
use session_scheduler.Sql.{update_where}
use session_scheduler.Sql.Laws.{All-delete_where, All-update_where}
use session_scheduler.Errors.{Error, internal}
use session_scheduler.Tx.{Res, ok, err, Tx, Fault, Round, tx_loop, exec_loop, then_return, update}
use session_scheduler.Tx.Atomic.{tx_loop_atomic, exec_loop_atomic}
use session_scheduler.Db.{Discussion, Db, empty}
use session_scheduler.Db.Keys.{is_discussion}
use session_scheduler.User.Delete.{delete_user_tx, delete_user}
use session_scheduler.User.Delete.Laws.{delete_user_exact}
use session_scheduler.Discussion.Create.{
  check_discussion_params, fresh_discussion, new_discussion_tx, new_discussion,
}
use session_scheduler.Discussion.Create.Laws.{new_discussion_creates}
use session_scheduler.Discussion.Update.{
  with_approval, discussion_update_tx, discussion_update, discussion_set_public, update_approval,
  check_one_discussion,
}
use session_scheduler.Discussion.Update.Laws.{as_asked, discussion_update_stores}
use session_scheduler.Discussion.Delete.{delete_discussion_tx, delete_discussion}
use session_scheduler.Discussion.Delete.Laws.{delete_discussion_exact}

abbrev pub is_moderated : Discussion → Bool
is_moderated d =
    not d.is_public || (d.approved_title == d.title && d.approved_description == d.description)

abbrev pub IsModerated : Db → Type 0
IsModerated db = All (λ d. is_moderated d ≡ true) db.discussions

-- One call, whatever it returns and whatever the driver does; or anything else that leaves the
-- table of discussions alone.
pub data Step (db db' : Db) : Type 0 where
  create :
      (did : String) (disc : Discussion) (rs : List Round) (r : Res Discussion)
      → new_discussion did disc rs db ≡ some (r, db')
      → Step db db'
  change :
      (disc : Discussion) (rs : List Round) (r : Res (Unit {0}))
      → discussion_update disc rs db ≡ some (r, db')
      → Step db db'
  moderate :
      (did : String) (public : Bool) (fs : List (Option Fault)) (r : Res (Unit {0}))
      → discussion_set_public did public fs db ≡ some (r, db')
      → Step db db'
  remove :
      (did : String) (rs : List Round) (r : Res (Unit {0}))
      → delete_discussion did rs db ≡ some (r, db')
      → Step db db'
  remove_user :
      (uid : String) (rs : List Round) (r : Res (Unit {0}))
      → delete_user uid rs db ≡ some (r, db')
      → Step db db'
  elsewhere : db'.discussions ≡ db.discussions → Step db db'

pub data Reach : Db → Type 0 where
  here : Reach empty
  next : {db db' : Db} → Reach db → Step db db' → Reach db'

module _ (db db' : Db) where
  same : db' ≡ db → IsModerated db → IsModerated db'
  same e h = subst IsModerated (sym e) h

  stored :
      (ds : List Discussion)
      → db'.discussions ≡ ds
      → All (λ d. is_moderated d ≡ true) ds
      → IsModerated db'
  stored ds e h = subst (All (λ d. is_moderated d ≡ true)) (sym e) h

  -- An error of an operation that checks its arguments before its transaction.
  checked_err :
      {A : Type 0} (m : Tx Db A) (rs : List Round) (o : Option Error) (x : Error)
      → elim o [ some e ↦ some (err e, db) | none ↦ tx_loop m rs db ] ≡ some (err x, db')
      → db' ≡ db
  checked_err m rs (some e) x h = ground arith
  checked_err m rs none x h = tx_loop_atomic m rs db (err x, db') h

  fresh_moderated :
      (did : String) (disc : Discussion) (b : Bool)
      → is_moderated (fresh_discussion did disc b) ≡ true
  fresh_moderated did disc true = grind (arith, ==_refl disc.title, ==_refl disc.description)
  fresh_moderated did disc false = refl

  create-IsModerated :
      (did : String) (disc : Discussion) (rs : List Round) (r : Res Discussion)
      → new_discussion did disc rs db ≡ some (r, db')
      → IsModerated db
      → IsModerated db'
  create-IsModerated did disc rs (ok d) e h =
      let c = (new_discussion_creates did disc d rs db db' e).1 in
      stored (db.discussions ++ d ∷ []) (ap (λ x. x.discussions) c.added) (
        All-append (λ x. is_moderated x ≡ true) db.discussions (d ∷ []) h
          (
            subst (λ x. is_moderated x ≡ true) (sym c.stored)
                (fresh_moderated did disc d.is_public),
            tt,
          ))
  create-IsModerated did disc rs (err x) e h =
      same
        (checked_err (new_discussion_tx did disc) rs (check_discussion_params disc) x
          (unfold new_discussion in e))
        h

  change-IsModerated :
      (disc : Discussion) (rs : List Round) (r : Res (Unit {0}))
      → discussion_update disc rs db ≡ some (r, db')
      → IsModerated db
      → IsModerated db'
  change-IsModerated disc rs (ok u) e h =
      let (_, (b, updated, _)) = discussion_update_stores disc rs db db' e in
      stored _ updated.discussions (
        All-update_where (λ d. is_moderated d ≡ true) (is_discussion disc.discussion_id)
          (as_asked disc b) db.discussions (λ d k. texts_moderated b d) h)
    where
      texts_moderated : (b : Bool) (d : Discussion) → is_moderated (as_asked disc b d) ≡ true
      texts_moderated true d = grind (arith, ==_refl disc.title, ==_refl disc.description)
      texts_moderated false d = refl
  change-IsModerated disc rs (err x) e h =
      same
        (checked_err (discussion_update_tx disc) rs (check_discussion_params disc) x
          (unfold discussion_update in e))
        h

  moderate-IsModerated :
      (did : String) (public : Bool) (fs : List (Option Fault)) (r : Res (Unit {0}))
      → discussion_set_public did public fs db ≡ some (r, db')
      → IsModerated db
      → IsModerated db'
  unfolding discussion_set_public update_approval update
  moderate-IsModerated did public fs r e h =
      go (exec_loop (update_approval did public) fs db) refl e
    where
      approved : (b : Bool) (d : Discussion) → is_moderated (with_approval b d) ≡ true
      approved true d = grind (arith, ==_refl d.title, ==_refl d.description)
      approved false d = refl

      updated :
          {d : Db} {n : ℕ}
          → update_approval did public db ≡ ok (d, n)
          → record db {
            discussions = update_where (is_discussion did) (with_approval public) db.discussions;
          }
            ≡ d
      updated k = ground arith

      changed : (d : Db) (n : ℕ) → update_approval did public db ≡ ok (d, n) → IsModerated d
      changed d n k = subst IsModerated (updated k) (
          All-update_where (λ d. is_moderated d ≡ true) (is_discussion did) (with_approval public)
            db.discussions (λ d _. approved public d) h)

      go :
          (o : Option (Res ℕ × Db))
          → exec_loop (update_approval did public) fs db ≡ o
          → then_return check_one_discussion (λ _. err internal) o ≡ some (r, db')
          → IsModerated db'
      go none p k = absurd (ground arith)
      go (some (x, d)) p k =
          let e : d ≡ db' = ground arith in
          subst IsModerated e (elim (exec_loop_atomic (update_approval did public) fs db d x p) [
            | inl (n, q, s) ↦ changed d n s
            | inr (y, q, s) ↦ subst IsModerated (sym s) h
          ])

  remove-IsModerated :
      (did : String) (rs : List Round) (r : Res (Unit {0}))
      → delete_discussion did rs db ≡ some (r, db')
      → IsModerated db
      → IsModerated db'
  remove-IsModerated did rs (ok u) e h =
      stored _ (ap (λ x. x.discussions) (delete_discussion_exact did rs db db' e).1)
        (All-delete_where _ _ db.discussions h)
  remove-IsModerated did rs (err x) e h =
      same
        (tx_loop_atomic (delete_discussion_tx did) rs db (err x, db')
          (unfold delete_discussion in e))
        h

  remove_user-IsModerated :
      (uid : String) (rs : List Round) (r : Res (Unit {0}))
      → delete_user uid rs db ≡ some (r, db')
      → IsModerated db
      → IsModerated db'
  remove_user-IsModerated uid rs (ok u) e h =
      stored _ (ap (λ x. x.discussions) (delete_user_exact uid rs db db' e).1)
        (All-delete_where _ _ db.discussions h)
  remove_user-IsModerated uid rs (err x) e h =
      same (tx_loop_atomic (delete_user_tx uid) rs db (err x, db') (unfold delete_user in e)) h

Step-IsModerated : {db db' : Db} → Step db db' → IsModerated db → IsModerated db'
Step-IsModerated {db} {db'} (create did disc rs r e) h = create-IsModerated db db' did disc rs r e h
Step-IsModerated {db} {db'} (change disc rs r e) h = change-IsModerated db db' disc rs r e h
Step-IsModerated {db} {db'} (moderate did public fs r e) h =
    moderate-IsModerated db db' did public fs r e h
Step-IsModerated {db} {db'} (remove did rs r e) h = remove-IsModerated db db' did rs r e h
Step-IsModerated {db} {db'} (remove_user uid rs r e) h = remove_user-IsModerated db db' uid rs r e h
Step-IsModerated {db} {db'} (elsewhere e) h = stored db db' _ e h

-- In every database that calls of NewDiscussion, DiscussionUpdate, DiscussionSetPublic,
-- DeleteDiscussion and DeleteUser lead to from the empty one, in any order, with any results and
-- driver faults, and with other operations between them that leave the table of discussions
-- alone, the approved title and description of a public discussion are its title and description.
pub Reach-IsModerated : (db : Db) → Reach db → IsModerated db
unfolding empty
Reach-IsModerated db here = tt
Reach-IsModerated db (next r s) = Step-IsModerated s (Reach-IsModerated _ r)

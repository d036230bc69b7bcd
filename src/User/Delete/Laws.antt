-- ===== src/User/Delete/Laws.antt =====
-- About DeleteUser (event/user.go), the order of its statements and the foreign keys.
use session_scheduler.Base.{
  String, Bool, true, false, ◌&&◌, ◌||◌, ◌≡◌, refl, ap, ◌∙◌, sym, none, some, List, [], ◌∷◌, ◌==◌,
  ==_iff, ==_refl, string_key, nat_key, any, length, arith, All,
}
use session_scheduler.Sql.{select, delete_where, count_where}
use session_scheduler.Sql.Laws.{
  any-delete_where, any-delete_where_mem, any-select_none, All-any_self, delete_where-delete_where,
  delete_where_idem,
}
use session_scheduler.Errors.{user_not_found}
use session_scheduler.Tx.{ok, Round, expect_one}
use session_scheduler.Tx.Atomic.{start, tx_loop_settles}
use session_scheduler.Tx.Run.{>>=-ok, try-ok, or_retry-ok, expect_one-one, expect_one-inv}
use session_scheduler.Tx.Steady.{
  Steady, Steady-bind, Steady-or_retry, Steady-exec, Steady-expect_one, tx_loop-Steady,
}
use session_scheduler.Db.{Interest, Discussion, Db}
use session_scheduler.Db.Keys.{is_user, is_interest_of, is_owned_by, user_referenced}
use session_scheduler.Db.Tables.{delete_interest, delete_users}
use session_scheduler.Discussion.Delete.Laws.{
  delete_discussion_common_lem, Steady-delete_discussion_common,
}
use session_scheduler.User.Delete.{is_discussion_of, delete_user_tx, delete_user}

-- What is to be left: every row that is neither the user, nor a discussion of the user, nor
-- refers to one of them.
abbrev pub without_user : String → Db → Db
without_user uid db = record db {
  users = delete_where (is_user uid) db.users;
  discussions = delete_where (λ d. is_discussion_of uid db d.discussion_id) db.discussions;
  interest =
      delete_where (λ i. is_interest_of uid i || is_discussion_of uid db i.discussion_id)
        db.interest;
  possible_slots = delete_where (λ p. is_discussion_of uid db p.discussion_id) db.possible_slots;
  schedule = delete_where (λ e. is_discussion_of uid db e.discussion_id) db.schedule;
}

module _ (uid : String) (db : Db) where
  abbrev mine : String → Bool
  mine = is_discussion_of uid db

  abbrev interest_left : List Interest
  interest_left = delete_where (λ i. is_interest_of uid i || mine i.discussion_id) db.interest

  All-is_owned_by : All (λ d. is_owned_by uid d ≡ true → mine d.discussion_id ≡ true) db.discussions
  unfolding is_discussion_of
  All-is_owned_by =
      All-any_self (is_owned_by uid) (λ y x. y.discussion_id == x.discussion_id && y.owner == uid)
        db.discussions (λ x h. grind (arith, ==_refl x.discussion_id))

  user_unreferenced :
      any
        (user_referenced (record (without_user uid db) { users = db.users }))
        (select (is_user uid) db.users)
      ≡ false
  user_unreferenced =
      any-select_none (user_referenced (record (without_user uid db) { users = db.users }))
        (is_user uid) db.users
        (λ u h. rw ((==_iff u.user_id uid).0 h) (
          ground (
            arith,
            any-delete_where_mem (is_owned_by uid) (λ d. mine d.discussion_id) db.discussions
                All-is_owned_by,
            any-delete_where (is_interest_of uid)
                (λ i. is_interest_of uid i || mine i.discussion_id) db.interest (λ i p. rw p refl),
          )))

  interest_twice :
      delete_where
        (λ (i : Interest). mine i.discussion_id)
        (delete_where (λ i. mine i.discussion_id) (delete_where (is_interest_of uid) db.interest))
      ≡ interest_left
  interest_twice =
      delete_where_idem _ _
      ∙ delete_where-delete_where (is_interest_of uid) (λ i. mine i.discussion_id) db.interest

  -- DeleteUser's statements where the driver reports no fault: each of them succeeds.
  delete_user_tx_lem :
      delete_user_tx uid (start db [])
      ≡ expect_one user_not_found
          (count_where (is_user uid) db.users)
          (start (without_user uid db) [])
  unfolding delete_user_tx delete_interest delete_users count_where
  delete_user_tx_lem =
      let i = delete_where (is_interest_of uid) db.interest in
      let j = delete_where (λ (k : Interest). mine k.discussion_id) i in
      let db₂ : Db = record db { interest = j } in
      let db₃ : Db = record (without_user uid db) { users = db.users } in
      >>=-ok _ _ (
        try-ok _ _ db (record db { interest = i })
          (length (select (is_interest_of uid) db.interest)) refl)
      ∙ >>=-ok _ _ (
          try-ok _ _ (record db { interest = i }) db₂
            (length (select (λ (k : Interest). mine k.discussion_id) i)) refl)
      ∙ >>=-ok _ _ (
          or_retry-ok _ _ (
            delete_discussion_common_lem (is_discussion_of uid) db₂ (λ _ _ _. refl)
            ∙ ap
                (λ x. (
                  ok (count_where (λ (d : Discussion). mine d.discussion_id) db.discussions),
                  start (record db₃ { interest = x }) [],
                ))
                interest_twice))
      ∙ >>=-ok _ _ (
          try-ok _ _ db₃ (without_user uid db) (length (select (is_user uid) db.users))
            (rw user_unreferenced refl))

Steady-delete_user_tx : (uid : String) → Steady (delete_user_tx uid)
unfolding delete_user_tx
Steady-delete_user_tx uid = Steady-bind _ _ (Steady-or_retry _ _ (Steady-exec _)) λ _.
    Steady-bind _ _ (Steady-or_retry _ _ (Steady-exec _)) λ _.
      Steady-bind _ _ (Steady-or_retry _ _ (Steady-delete_discussion_common _)) λ _.
        Steady-bind _ _ (Steady-or_retry _ _ (Steady-exec _))
          λ n. Steady-expect_one user_not_found n

-- When DeleteUser succeeds, whatever the driver did on the way, exactly one row had the
-- identifier, and what is left of the database is every row that is neither that user, nor a
-- discussion owned by that user, nor refers to one of them.
pub delete_user_exact :
    (uid : String) (rs : List Round) (db db' : Db)
    → delete_user uid rs db ≡ some (ok tt, db')
    → (count_where (is_user uid) db.users ≡ 1) × (db' ≡ without_user uid db)
unfolding delete_user
delete_user_exact uid rs db db' h =
    let (p, q) = tx_loop-Steady _ (Steady-delete_user_tx uid) rs db db' tt h in
    let e = delete_user_tx_lem uid db in
    let (one, same) =
      expect_one-inv user_not_found (count_where (is_user uid) db.users)
        (start (without_user uid db) []) (sym (ap (λ z. z.0) e) ∙ p) in
    (one, sym q ∙ ap (λ z. z.1.db) e ∙ ap (λ c. c.db) same)

-- DeleteUser of a user that has one row succeeds in its first round if the driver reports no
-- fault in it: no foreign key of the schema stops any of its statements, whatever refers to the
-- user or to the user's discussions.
pub delete_user_total :
    (uid : String) (r : Round) (rs : List Round) (db : Db)
    → count_where (is_user uid) db.users ≡ 1
    → r.begin ≡ none
    → r.faults ≡ []
    → r.commit ≡ none
    → delete_user uid (r ∷ rs) db ≡ some (ok tt, without_user uid db)
unfolding delete_user
delete_user_total uid r rs db one begun quiet committed =
    let e : delete_user_tx uid (start db r.faults) ≡ (ok tt, start (without_user uid db) []) =
      rw quiet (delete_user_tx_lem uid db ∙ expect_one-one user_not_found _ _ one) in
    tx_loop_settles (delete_user_tx uid) r rs db tt begun committed (ap (λ z. z.0) e)
    ∙ ap (λ z. some (ok tt, z.1.db)) e

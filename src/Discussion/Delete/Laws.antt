-- ===== src/Discussion/Delete/Laws.antt =====
-- About deleteDiscussionCommon and DeleteDiscussion (event/discussion.go), and the foreign keys
-- that their statements meet.
use session_scheduler.Base.{
  String, Bool, true, false, ◌≡◌, refl, ap, ◌∙◌, sym, subst, some, List, [], ◌==◌, ==_iff,
  string_key, nat_key, any, length, arith,
}
use session_scheduler.Sql.{select, delete_where, count_where}
use session_scheduler.Sql.Laws.{any-delete_where, any-select_none}
use session_scheduler.Errors.{discussion_not_found}
use session_scheduler.Tx.{ok, Round, expect_one}
use session_scheduler.Tx.Atomic.{start}
use session_scheduler.Tx.Run.{>>=-ok, try-ok, expect_one-inv}
use session_scheduler.Tx.Steady.{
  Steady, Steady-bind, Steady-expect_one, steady_rules, tx_loop-Steady,
}
use session_scheduler.Db.{Interest, PossibleSlot, Scheduled, Discussion, Db}
use session_scheduler.Db.Keys.{is_discussion, discussion_referenced}
use session_scheduler.Db.Tables.{
  delete_interest, delete_possible_slots, delete_schedule, delete_discussions,
}
use session_scheduler.Discussion.Delete.{
  Where, delete_discussion_common, delete_discussion_tx, delete_discussion,
}

-- The database without the discussions that pass a test, nor anything that refers to them.
abbrev pub without_discussions : (String → Bool) → Db → Db
without_discussions w db = record db {
  interest = delete_where (λ i. w i.discussion_id) db.interest;
  possible_slots = delete_where (λ p. w p.discussion_id) db.possible_slots;
  schedule = delete_where (λ e. w e.discussion_id) db.schedule;
  discussions = delete_where (λ d. w d.discussion_id) db.discussions;
}

unreferenced :
    (w : String → Bool) (db : Db) (ds : List Discussion)
    → any
        (discussion_referenced (record (without_discussions w db) { discussions = ds }))
        (select (λ d. w d.discussion_id) ds)
      ≡ false
unreferenced w db ds =
    any-select_none (discussion_referenced (record (without_discussions w db) { discussions = ds }))
      (λ d. w d.discussion_id) ds
      (λ d h. ground (
        arith,
        any-delete_where (λ (i : Interest). i.discussion_id == d.discussion_id)
            (λ i. w i.discussion_id) db.interest
            (λ i p. subst (λ x. w x ≡ true) (sym ((==_iff _ _).0 p)) h),
        any-delete_where (λ (i : PossibleSlot). i.discussion_id == d.discussion_id)
            (λ i. w i.discussion_id) db.possible_slots
            (λ i p. subst (λ x. w x ≡ true) (sym ((==_iff _ _).0 p)) h),
        any-delete_where (λ (i : Scheduled). i.discussion_id == d.discussion_id)
            (λ i. w i.discussion_id) db.schedule
            (λ i p. subst (λ x. w x ≡ true) (sym ((==_iff _ _).0 p)) h),
      ))

-- deleteDiscussionCommon, where the driver reports no fault and the test does not look at the
-- tables that the first three statements change.
pub delete_discussion_common_lem :
    (w : Where) (db : Db)
    → ((i : List Interest) (p : List PossibleSlot) (e : List Scheduled)
        → w (record db { interest = i; possible_slots = p; schedule = e }) ≡ w db)
    → delete_discussion_common w (start db []) ≡ (
      ok (count_where (λ d. w db d.discussion_id) db.discussions),
      start (without_discussions (w db) db) [],
    )
unfolding delete_discussion_common delete_interest delete_possible_slots delete_schedule
    delete_discussions count_where
delete_discussion_common_lem w db h =
    let i = delete_where (λ (i : Interest). w db i.discussion_id) db.interest in
    let p = delete_where (λ (p : PossibleSlot). w db p.discussion_id) db.possible_slots in
    let e = delete_where (λ (e : Scheduled). w db e.discussion_id) db.schedule in
    >>=-ok _ _ (
      try-ok _ _ db (record db { interest = i })
        (length (select (λ (j : Interest). w db j.discussion_id) db.interest)) refl)
    ∙ >>=-ok _ _ (
        try-ok _ _ (record db { interest = i }) (record db { interest = i; possible_slots = p })
          (length (select (λ (q : PossibleSlot). w db q.discussion_id) db.possible_slots))
          (rw (h i db.possible_slots db.schedule) refl))
    ∙ >>=-ok _ _ (
        try-ok _ _ (record db { interest = i; possible_slots = p })
          (record db { interest = i; possible_slots = p; schedule = e })
          (length (select (λ (f : Scheduled). w db f.discussion_id) db.schedule))
          (rw (h i p db.schedule) refl))
    ∙ try-ok _ _ (record db { interest = i; possible_slots = p; schedule = e })
        (without_discussions (w db) db) _
        (rw (h i p e) (rw (unreferenced (w db) db db.discussions) refl))

pub Steady-delete_discussion_common : (w : Where) → Steady (delete_discussion_common w)
unfolding delete_discussion_common
Steady-delete_discussion_common w = search steady_rules

Steady-delete_discussion_tx : (did : String) → Steady (delete_discussion_tx did)
unfolding delete_discussion_tx
Steady-delete_discussion_tx did =
    Steady-bind _ _ (Steady-delete_discussion_common _)
      (λ n. Steady-expect_one discussion_not_found n)

delete_discussion_tx_lem :
    (did : String) (db : Db)
    → delete_discussion_tx did (start db [])
      ≡ expect_one discussion_not_found
          (count_where (is_discussion did) db.discussions)
          (start (without_discussions (λ x. x == did) db) [])
unfolding delete_discussion_tx
delete_discussion_tx_lem did db =
    >>=-ok _ _ (delete_discussion_common_lem (λ _ x. x == did) db (λ _ _ _. refl))

-- When DeleteDiscussion succeeds, exactly one discussion had the identifier; that row, the
-- interest in it, its slot restrictions and its schedule entries are gone, and nothing else.
pub delete_discussion_exact :
    (did : String) (rs : List Round) (db db' : Db)
    → delete_discussion did rs db ≡ some (ok tt, db')
    → (count_where (is_discussion did) db.discussions ≡ 1)
      × (db' ≡ without_discussions (λ x. x == did) db)
unfolding delete_discussion
delete_discussion_exact did rs db db' h =
    let (p, q) = tx_loop-Steady _ (Steady-delete_discussion_tx did) rs db db' tt h in
    let e = delete_discussion_tx_lem did db in
    let (one, same) =
      expect_one-inv discussion_not_found (count_where (is_discussion did) db.discussions)
        (start (without_discussions (λ x. x == did) db) []) (sym (ap (λ z. z.0) e) ∙ p) in
    (one, sym q ∙ ap (λ z. z.1.db) e ∙ ap (λ c. c.db) same)

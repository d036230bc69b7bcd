-- ===== src/Timetable/Days/Laws.antt =====
-- About DeleteDay (event/timetable.go).
use session_scheduler.Base.{
  ℕ, ◌≡◌, ap, sym, subst, ◌∙◌, Bool, ◌&&◌, some, List, [], nat_key, string_key, arith,
}
use session_scheduler.Sql.{delete_where, count_where}
use session_scheduler.Errors.{day_not_found}
use session_scheduler.Tx.{ok, Conn, Round, pure, throw, exec, or_retry, ◌>>=◌, expect_one}
use session_scheduler.Tx.Atomic.{start}
use session_scheduler.Tx.Run.{
  query->>=-ran, check->>-ran, try->>=-ran, >>-ran, pure-ran, expect_one-inv,
}
use session_scheduler.Tx.Steady.{
  Steady, Steady-pure, Steady-throw, Steady-if, Steady-bind, Steady-then, Steady-or_retry,
  Steady-exec, Steady-expect_one, tx_loop_ran,
}
use session_scheduler.Db.{Slot, Day, Scheduled, Db}
use session_scheduler.Db.Keys.{is_day}
use session_scheduler.Db.Tables.{delete_schedule, delete_slots, delete_days}
use session_scheduler.Timetable.Days.{
  is_from, is_in_range, check_none_locked, day_slots_delete_tx, delete_day_tx, delete_day,
}

abbrev pub is_locked_from : ℕ → ℕ → Slot → Bool
is_locked_from did idx s = is_from did idx s && s.is_locked

-- The database without the slots of a day from an index on, and without their schedule.
abbrev pub without_slots : ℕ → ℕ → Db → Db
without_slots did idx db = record db {
  schedule = delete_where (is_in_range did idx db) db.schedule;
  slots = delete_where (is_from did idx) db.slots;
}

Steady-day_slots_delete_tx : (did idx : ℕ) → Steady (day_slots_delete_tx did idx)
unfolding day_slots_delete_tx check_none_locked
Steady-day_slots_delete_tx did idx = Steady-bind _ _ (Steady-or_retry _ _ (Steady-exec _)) λ n.
    Steady-then _ _ (Steady-if _ _ _ (Steady-throw _) (Steady-pure tt)) (
      Steady-bind _ _ (Steady-or_retry _ _ (Steady-exec _))
        λ m. Steady-bind _ _ (Steady-or_retry _ _ (Steady-exec _)) (λ k. Steady-pure tt))

Steady-delete_day_tx : (did : ℕ) → Steady (delete_day_tx did)
unfolding delete_day_tx
Steady-delete_day_tx did =
    Steady-then _ _ (Steady-day_slots_delete_tx did 1) (
      Steady-bind _ _ (Steady-or_retry _ _ (Steady-exec _))
        (λ n. Steady-expect_one day_not_found n))

check_none_locked_inv :
    (n : ℕ) (c : Conn Db)
    → (check_none_locked n c).0 ≡ ok tt
    → (n ≡ 0) × ((check_none_locked n c).1 ≡ c)
unfolding check_none_locked pure throw
check_none_locked_inv n c h = ground arith

delete_slots-ran :
    (p : Slot → Bool) (db db' : Db) (n : ℕ)
    → delete_slots p db ≡ ok (db', n)
    → db' ≡ record db { slots = delete_where p db.slots }
unfolding delete_slots
delete_slots-ran p db db' n h = ground arith

delete_schedule-ran :
    (p : Scheduled → Bool) (db db' : Db) (n : ℕ)
    → delete_schedule p db ≡ ok (db', n)
    → db' ≡ record db { schedule = delete_where p db.schedule }
unfolding delete_schedule
delete_schedule-ran p db db' n h = ground arith

delete_days-ran :
    (p : Day → Bool) (db db' : Db) (n : ℕ)
    → delete_days p db ≡ ok (db', n)
    → (n ≡ count_where p db.days) × (db' ≡ record db { days = delete_where p db.days })
unfolding delete_days count_where
delete_days-ran p db db' n h = ground arith

module _ (did : ℕ) where
  day_slots_delete_tx-ran :
      (idx : ℕ) (db : Db) (c : Conn Db)
      → day_slots_delete_tx did idx (start db []) ≡ (ok tt, c)
      → (count_where (is_locked_from did idx) db.slots ≡ 0)
        × (c ≡ start (without_slots did idx db) [])
  unfolding day_slots_delete_tx
  day_slots_delete_tx-ran idx db c h =
      let n = count_where (is_locked_from did idx) db.slots in
      let (free, rest) =
        check->>-ran (check_none_locked n) _
          (λ c₁ e.
            sym (ap (λ z. z.1) e) ∙ (check_none_locked_inv n (start db []) (ap (λ z. z.0) e)).1)
          (query->>=-ran _ _ _ db h) in
      let (m, db₁, p, rest₁) = try->>=-ran _ _ _ db rest in
      let (k, db₂, q, rest₂) = try->>=-ran _ _ _ db₁ rest₁ in
      let (_, same) = pure-ran tt tt (start db₂ []) c rest₂ in
      (
        (check_none_locked_inv n (start db []) free).0,
        sym same
            ∙ ap (λ x. start x [])
                (delete_slots-ran (is_from did idx) db₁ db₂ k q
                  ∙ ap (λ (x : Db). record x { slots = delete_where (is_from did idx) x.slots })
                      (delete_schedule-ran (is_in_range did idx db) db db₁ m p)),
      )

  -- When DeleteDay succeeds, whatever the driver did on the way, exactly one day had the
  -- identifier and none of its slots from index 1 on was locked; the day, those slots and their
  -- schedule entries are gone, and nothing else.
  pub delete_day_exact :
      (rs : List Round) (db db' : Db)
      → delete_day did rs db ≡ some (ok tt, db')
      → (count_where (is_day did) db.days ≡ 1)
        × (count_where (is_locked_from did 1) db.slots ≡ 0)
        × (db' ≡ record (without_slots did 1 db) { days = delete_where (is_day did) db.days })
  unfolding delete_day delete_day_tx
  delete_day_exact rs db db' h =
      let ran = tx_loop_ran _ (Steady-delete_day_tx did) rs db db' tt h in
      let (c₁, first, rest) = >>-ran _ _ ran in
      let (free, e) = day_slots_delete_tx-ran 1 db c₁ first in
      let (n, db₂, p, last) = try->>=-ran _ (delete_days (is_day did)) _ (without_slots did 1 db) (
        subst
          (λ c.
            (or_retry "Deleting day from event_days" (exec (delete_days (is_day did)))
                >>= (λ n. expect_one day_not_found n))
              c
            ≡ (ok tt, start db' []))
          e rest) in
      let (count, only) = delete_days-ran (is_day did) (without_slots did 1 db) db₂ n p in
      let (one, kept) = expect_one-inv day_not_found n (start db₂ []) (ap (λ z. z.0) last) in
      (sym count ∙ one, free, ap (λ (c : Conn Db). c.db) (sym (ap (λ z. z.1) last) ∙ kept) ∙ only)

-- ===== src/User/Find/Laws.antt =====
-- About the lookups of users (event/user.go).
use mathlib.Core.Option
use session_scheduler.Base.{
  ◌≡◌, inl, inr, refl, sym, ◌∙◌, subst, String, Option, none, some, List, arith, Bool-cases,
  nat_key,
}
use session_scheduler.Sql.{first_where}
use session_scheduler.Tx.{Res, ok, err, Conn, Fault, Round, exec_loop, get_row, is_no_rows}
use session_scheduler.Tx.Atomic.{start}
use session_scheduler.Tx.Variable.Laws.{
  VarOutcome, RowOutcome, row-RowOutcome, ReadOutcome, exec_loop-ReadOutcome,
  tx_loop_var-VarOutcome,
}
use session_scheduler.Db.{User, Db}
use session_scheduler.Db.Keys.{is_user}
use session_scheduler.User.Find.{
  zero_user, user_get_tx, found_or_nil, user_find_tx, user_find, has_name, found_by_name,
  user_find_by_username,
}

-- What UserFind's variable and result are after one run of its body, or after the loop.
FoundOutcome : String → Db → Option User → Res (Unit {0}) → Type 0
FoundOutcome uid db user (ok u) = user ≡ first_where (is_user uid) db.users
FoundOutcome uid db user (err e) = Unit

user_find_tx_lem :
    (uid : String) (db : Db) (user : Option User) (fs : List (Option Fault))
    → FoundOutcome uid db
        (user_find_tx uid user (start db fs)).0
        (user_find_tx uid user (start db fs)).1.0
      × ((user_find_tx uid user (start db fs)).1.1.db ≡ db)
unfolding user_find_tx user_get_tx FoundOutcome
user_find_tx_lem uid db user fs =
    go (user_get_tx user uid (start db fs))
      (row-RowOutcome user (λ (d : Db). first_where (is_user uid) d.users) db fs)
  where
    go :
        (x : Res User × Conn Db)
        → RowOutcome (first_where (is_user uid) db.users) db x
        → FoundOutcome uid db (found_or_nil user x).0 (found_or_nil user x).1.0
          × ((found_or_nil user x).1.1.db ≡ db)
    go (ok u, c) (found, same) = (sym found, same)
    go (err e, c) (missing, same) = elim (Bool-cases (is_no_rows e)) [
      | inl none_left ↦
          rw none_left (elim missing [ inl k ↦ absurd (ground arith) | inr o ↦ sym o ], same)
      | inr other ↦ rw other (tt, same)
    ]

user_find-VarOutcome :
    (uid : String) (rs : List Round) (db : Db) (user : Option User) (y : Res (Unit {0}) × Db)
    → user_find uid rs db ≡ some (user, y)
    → VarOutcome (user_find_tx uid) (λ _. Unit) db user y
unfolding user_find
user_find-VarOutcome uid rs db user y h =
    tx_loop_var-VarOutcome (user_find_tx uid) (λ _. Unit) db (λ w fs k. tt) rs (some zero_user) user
      y tt h

-- However UserFind ends, the database is as it was.
pub user_find_keeps :
    (uid : String) (rs : List Round) (db db' : Db) (user : Option User) (r : Res (Unit {0}))
    → user_find uid rs db ≡ some (user, (r, db'))
    → db' ≡ db
user_find_keeps uid rs db db' user (err e) h =
    (user_find-VarOutcome uid rs db user (err e, db') h).1
user_find_keeps uid rs db db' user (ok u) h =
    let (w, fs, _, _, _, same) = user_find-VarOutcome uid rs db user (ok u, db') h in
    same ∙ (user_find_tx_lem uid db w fs).1

-- When UserFind reports no error, whatever the driver did in however many rounds, it returns the
-- user with the identifier, nil when there is none, and the database is as it was.
pub user_find_finds :
    (uid : String) (rs : List Round) (db db' : Db) (user : Option User)
    → user_find uid rs db ≡ some (user, (ok tt, db'))
    → (user ≡ first_where (is_user uid) db.users) × (db' ≡ db)
unfolding FoundOutcome
user_find_finds uid rs db db' user h =
    let (w, fs, _, assigned, ran, same) = user_find-VarOutcome uid rs db user (ok tt, db') h in
    let (found, kept) = user_find_tx_lem uid db w fs in
    (
      sym assigned ∙ subst (FoundOutcome uid db (user_find_tx uid w (start db fs)).0) ran found,
      same ∙ kept,
    )

found_by_name_lem :
    (o : Option User) (db db' : Db) (user : Option User) (y : Res User × Db)
    → ReadOutcome o db y
    → found_by_name y ≡ (user, (ok tt, db'))
    → (user ≡ o) × (db' ≡ db)
found_by_name_lem o db db' user (ok u, d) (found, same) k = (ground arith, ground arith)
found_by_name_lem o db db' user (err e, d) (missing, same) k = elim (Bool-cases (is_no_rows e)) [
  | inl none_left ↦ (
    elim missing [ inl found ↦ absurd (ground arith) | inr nothing ↦ ground arith ],
    ground arith,
  )
  | inr other ↦ absurd (ground arith)
]

-- When UserFindByUsername reports no error, it returns the first user with the name, nil when there
-- is none, and the database is as it was.
pub user_find_by_username_finds :
    (name : String) (fs : List (Option Fault)) (db db' : Db) (user : Option User)
    → user_find_by_username name fs db ≡ some (user, (ok tt, db'))
    → (user ≡ first_where (has_name name) db.users) × (db' ≡ db)
unfolding user_find_by_username
user_find_by_username_finds name fs db db' user h =
    let read : Db → Option User = λ d. first_where (has_name name) d.users in
    go (exec_loop (get_row read) fs db) refl h
  where
    go :
        (o : Option (Res User × Db))
        → exec_loop (get_row (λ (d : Db). first_where (has_name name) d.users)) fs db ≡ o
        → Option.map found_by_name o ≡ some (user, (ok tt, db'))
        → (user ≡ first_where (has_name name) db.users) × (db' ≡ db)
    go none p q = absurd (ground arith)
    go (some y) p q =
        found_by_name_lem (first_where (has_name name) db.users) db db' user y
          (exec_loop-ReadOutcome (λ (d : Db). first_where (has_name name) d.users) fs db y p)
          (ground arith)

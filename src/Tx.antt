-- ===== src/Tx.antt =====
-- Transactions over the database (event/eventdb.go): `Tx` is the body of one transaction,
-- `tx_loop` the loop that runs it until it commits or fails, and `exec_loop` the loop round a
-- single statement that the code writes where it needs no transaction.
-- Generic in the database. What the driver does beside the SQL itself is an argument: the error,
-- if any, that each statement, begin and commit meets, and the time at each round.
pub mod Atomic
pub mod Steady
pub mod Run
pub mod Reads
pub mod Variable
use session_scheduler.Base.{
  ℕ, ◌==◌, nat_key, zero, suc, String, Bool, true, false, ◌&&◌, Option, none, some, List, [], ◌∷◌,
  ltb, if◌then◌else◌,
}
use session_scheduler.Errors.{
  Error, internal, message, wrapped, sqlite, busy, locked, other_code, no_rows, should_retry,
  err_or_retry,
}

pub data Res (A : Type 0) : Type 0 where
  ok : A → Res A
  err : Error → Res A

-- What the driver can report of any statement, begin or commit, whatever the SQL.
pub data Fault : Type 0 where
  is_busy is_locked is_broken : Fault

abbrev pub fault_error : Fault → Error
fault_error is_busy = sqlite busy
fault_error is_locked = sqlite locked
fault_error is_broken = sqlite other_code

-- The connection inside a transaction: the database as the transaction sees it, and what the
-- driver does to the statements to come. A list that has ended stands for no more errors.
pub record Conn (D : Type 0) : Type 0 where
  pub db : D
  pub faults : List (Option Fault)

abbrev pub Tx : Type 0 → Type 0 → Type 0
Tx D A = Conn D → Res A × Conn D

-- One statement; it changes nothing if it fails.
abbrev pub Statement : Type 0 → Type 0 → Type 0
Statement D A = D → Res (D × A)

module _ {D : Type 0} where
  abbrev pub settle : {A : Type 0} → Conn D → Res (D × A) → Res A × Conn D
  settle c (ok (d, a)) = (ok a, record c { db = d })
  settle c (err e) = (err e, c)

  abbrev pub bind : {A B : Type 0} → (A → Tx D B) → Res A × Conn D → Res B × Conn D
  bind f (ok a, c) = f a c
  bind f (err e, c) = (err e, c)

  abbrev pub relabel : {A : Type 0} → String → Res A × Conn D → Res A × Conn D
  relabel comment (ok a, c) = (ok a, c)
  relabel comment (err e, c) = (err (err_or_retry comment e), c)

  unfoldable pub pure : {A : Type 0} → A → Tx D A
  pure a c = (ok a, c)

  unfoldable pub throw : {A : Type 0} → Error → Tx D A
  throw e c = (err e, c)

  -- eq.Exec, sqlx.Get, sqlx.Select
  unfoldable pub exec : {A : Type 0} → Statement D A → Tx D A
  exec s c = elim c.faults [
    | [] ↦ settle c (s c.db)
    | none ∷ fs ↦ settle (record { db = c.db; faults = fs }) (s c.db)
    | some e ∷ fs ↦ (err (fault_error e), record { db = c.db; faults = fs })
  ]

  infixl 5 ◌>>=◌ ◌>>◌
  unfoldable pub ◌>>=◌ : {A B : Type 0} → Tx D A → (A → Tx D B) → Tx D B
  ◌>>=◌ m f c = bind f (m c)

  unfoldable pub ◌>>◌ : {B : Type 0} → Tx D (Unit {0}) → Tx D B → Tx D B
  ◌>>◌ m k c = bind (λ _. k) (m c)

  -- if err != nil { return errOrRetry(comment, err) }
  unfoldable pub or_retry : {A : Type 0} → String → Tx D A → Tx D A
  or_retry comment m c = relabel comment (m c)

abbrev pub is_no_rows : Error → Bool
is_no_rows no_rows = true
is_no_rows _ = false

module _ {D : Type 0} where
  -- A query, which cannot fail by itself: sqlx.Select, and sqlx.Get of an aggregate.
  unfoldable pub query : {A : Type 0} → (D → A) → Statement D A
  query f d = ok (d, f d)

  -- sqlx.Get of one row.
  unfoldable pub get_row : {A : Type 0} → (D → Option A) → Statement D A
  get_row f d = elim (f d) [ none ↦ err no_rows | some a ↦ ok (d, a) ]

  -- sqlx.Exec of an update, which answers with the number of rows changed.
  unfoldable pub update : (D → D) → (D → ℕ) → Statement D ℕ
  update f n d = ok (f d, n d)

  abbrev pub recover : {A : Type 0} → A → Res A × Conn D → Res A × Conn D
  recover a (ok b, c) = (ok b, c)
  recover a (err e, c) = (if is_no_rows e then ok a else err e, c)

  -- if err == sql.ErrNoRows { err = nil }
  unfoldable pub on_no_rows : {A : Type 0} → A → Tx D A → Tx D A
  on_no_rows a m c = recover a (m c)

  abbrev pub map_res : {A B : Type 0} → (A → Res B) → (Error → Res B) → Res A × D → Res B × D
  map_res f g (ok a, d) = (f a, d)
  map_res f g (err e, d) = (g e, d)

  -- The code after a loop round one statement, by its result.
  abbrev pub then_return :
      {A B : Type 0} → (A → Res B) → (Error → Res B) → Option (Res A × D) → Option (Res B × D)
  then_return f g none = none
  then_return f g (some x) = some (map_res f g x)

-- What one round of `txLoop` meets.
pub record Round : Type 0 where
  -- time.Now().Sub(start), in nanoseconds
  pub elapsed : ℕ
  pub begin : Option Fault
  pub faults : List (Option Fault)
  pub commit : Option Fault

abbrev pub min_tx_retries : ℕ
min_tx_retries = 5

-- time.Second
abbrev pub max_tx_time : ℕ
max_tx_time = 1000000000

-- How a round goes on: `stop` returns from the loop, `again` is `continue`.
pub data Next (A : Type 0) : Type 0 where
  stop : A → Next A
  again : Next A

module _ {D : Type 0} {A : Type 0} where
  abbrev pub fail_or_again : D → Error → Error → Next (Res A × D)
  fail_or_again d e e' = if should_retry e then again else stop (err e', d)

  abbrev pub finish : D → Round → Res A × Conn D → Next (Res A × D)
  finish d r (err e, c) = fail_or_again d e e
  finish d r (ok a, c) = elim r.commit [
    | none ↦ stop (ok a, c.db)
    | some e ↦ fail_or_again d (fault_error e) (wrapped "Commiting transaction" (fault_error e))
  ]

  -- One round, entered with `count` already raised. A round that does not commit is rolled back.
  unfoldable pub tx_round : Tx D A → ℕ → Round → D → Next (Res A × D)
  tx_round body count r d =
      if ltb min_tx_retries count && ltb max_tx_time r.elapsed
      then stop (err (message "Internal error: Transaction taking too long"), d)
      else elim r.begin [
        | none ↦ finish d r (body (record { db = d; faults = r.faults }))
        | some e ↦ fail_or_again d (fault_error e) (wrapped "Starting transaction" (fault_error e))
      ]

  -- `none` when the rounds given run out, with the loop still running.
  unfoldable pub tx_loop_from : ℕ → Tx D A → List Round → D → Option (Res A × D)
  unfolding tx_round
  tx_loop_from count body [] d = none
  tx_loop_from count body (r ∷ rs) d = elim (tx_round body (suc count) r d) [
    | stop result ↦ some result
    | again ↦ tx_loop_from (suc count) body rs d
  ]

  unfoldable pub tx_loop : Tx D A → List Round → D → Option (Res A × D)
  unfolding tx_loop_from
  tx_loop = tx_loop_from 0

  -- for { _, err := event.Exec(...); switch { case shouldRetry(err): continue; ... } }
  -- around one statement in autocommit mode. The list holds the driver's error at each try.
  unfoldable pub exec_loop : Statement D A → List (Option Fault) → D → Option (Res A × D)
  exec_loop s [] d = none
  exec_loop s (none ∷ fs) d = elim (s d) [ ok (d', a) ↦ some (ok a, d') | err e ↦ some (err e, d) ]
  exec_loop s (some e ∷ fs) d =
      let rest = exec_loop s fs d in
      if should_retry (fault_error e) then rest else some (err (fault_error e), d)

module _ {D : Type 0} where
  -- The `switch` on the number of rows that a statement for one row has affected. (The driver's
  -- RowsAffected reports no error.)
  unfoldable pub expect_one : Error → ℕ → Tx D (Unit {0})
  unfolding pure throw
  expect_one missing n =
      if n == 0 then throw missing else if ltb 1 n then throw internal else pure tt

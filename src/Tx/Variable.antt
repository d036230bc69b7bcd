-- ===== src/Tx/Variable.antt =====
-- `txLoop` round a body that assigns a variable declared outside it (event/user.go,
-- event/discussion.go). A round that is tried again leaves what it has assigned: a rollback undoes
-- the database alone.
pub mod Laws
use session_scheduler.Base.{
  ℕ, suc, Bool, ◌&&◌, Option, none, some, List, [], ◌∷◌, ltb, if◌then◌else◌,
}
use session_scheduler.Errors.{message}
use session_scheduler.Tx.{
  Res, err, Conn, Tx, Statement, Fault, Round, stop, again, tx_round, min_tx_retries, max_tx_time,
  get_row,
}
use session_scheduler.Tx.Atomic.{start}

-- The new value of the variable, beside what the body returns.
abbrev pub VarTx : Type 0 → Type 0 → Type 0 → Type 0
VarTx V D A = V → Conn D → V × (Res A × Conn D)

abbrev pub is_late : ℕ → Round → Bool
is_late count r = ltb min_tx_retries count && ltb max_tx_time r.elapsed

abbrev pub after_begin : {V : Type 0} → Option Fault → V → V → V
after_begin none old new = new
after_begin (some f) old new = old

module _ {V D A : Type 0} where
  -- The body as one that sees the variable at `v`.
  abbrev pub body_at : VarTx V D A → V → Tx D A
  body_at body v c = (body v c).1

  -- What one round leaves in the variable.
  unfoldable pub assigned : VarTx V D A → ℕ → Round → V → D → V
  assigned body count r v d =
      if is_late count r then v else after_begin r.begin v (body v (start d r.faults)).0

  unfoldable pub tx_loop_var_from : ℕ → VarTx V D A → List Round → V → D → Option (V × (Res A × D))
  unfolding tx_round assigned
  tx_loop_var_from count body [] v d = none
  tx_loop_var_from count body (r ∷ rs) v d =
      let v' = assigned body (suc count) r v d in
      elim (tx_round (body_at body v) (suc count) r d) [
        | stop result ↦ some (v', result)
        | again ↦ tx_loop_var_from (suc count) body rs v' d
      ]

  unfoldable pub tx_loop_var : VarTx V D A → List Round → V → D → Option (V × (Res A × D))
  unfolding tx_loop_var_from
  tx_loop_var = tx_loop_var_from 0

-- sqlx.Get of one row into a pointer, which it refuses when it is nil.
unfoldable pub get_row_into : {D A : Type 0} → Option A → (D → Option A) → Statement D A
unfolding get_row
get_row_into none f d = err (message "nil pointer passed to StructScan destination")
get_row_into (some a) f d = get_row f d

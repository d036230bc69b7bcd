-- ===== src/Tx/Variable/Laws.antt =====
-- About a variable that the body of `txLoop` assigns.
use session_scheduler.Base.{
  ℕ, suc, ◌≡◌, refl, ap, subst, Bool-cases, inl, inr, ◌⊎◌, false, Option, none, some, List, [], ◌∷◌,
  arith,
}
use session_scheduler.Errors.{Error, message, wrapped, should_retry}
use session_scheduler.Tx.{
  Res, ok, err, Conn, Fault, fault_error, Round, Next, stop, again, finish, fail_or_again, tx_round,
  is_busy, is_locked, is_broken, exec, exec_loop, get_row, is_no_rows,
}
use session_scheduler.Tx.Atomic.{start}
use session_scheduler.Tx.Variable.{
  VarTx, body_at, is_late, after_begin, assigned, tx_loop_var_from, tx_loop_var, get_row_into,
}

module _ {V D A : Type 0} (body : VarTx V D A) (P : V → Type 0) (d : D) where
  -- How the loop ends: with an error, the database is unchanged; with a success, one run of the
  -- body has made variable, result and database. `P` holds of the variable in either case.
  abbrev pub VarOutcome : V → Res A × D → Type 0
  VarOutcome v (err e, d') = P v × (d' ≡ d)
  VarOutcome v (ok a, d') =
      (w : V) × (fs : List (Option Fault)) × P w
      × ((body w (start d fs)).0 ≡ v)
      × ((body w (start d fs)).1.0 ≡ ok a)
      × (d' ≡ (body w (start d fs)).1.1.db)

  failed : (v : V) (e : Error) (y : Res A × D) → P v → y ≡ (err e, d) → VarOutcome v y
  failed v e (err e', d') p h = (p, ap (λ z. z.1) h)
  failed v e (ok a, d') p h = absurd (ground arith)

  finished :
      (w v : V) (r : Round) (x : Res A × Conn D) (y : Res A × D)
      → P w
      → P v
      → ◌≡◌ {A = V × (Res A × Conn D)} (body w (start d r.faults)) (v, x)
      → finish d r x ≡ stop y
      → VarOutcome v y
  finished w v r (err e, c) (err e', d') pw p h k = (p, ground arith)
  finished w v r (err e, c) (ok a, d') pw p h k = absurd (ground arith)
  finished w v r (ok a, c) (err e', d') pw p h k = (p, ground arith)
  finished w v r (ok a, c) (ok a', d') pw p h k =
      (w, r.faults, pw, ap (λ z. z.0) h, ground arith, ground arith)

  module _ (kept : (w : V) (fs : List (Option Fault)) → P w → P (body w (start d fs)).0) where
    begun :
        (w : V) (r : Round) (b : Option Fault) (y : Res A × D)
        → P w
        → elim b [
          | none ↦ finish d r (body w (start d r.faults)).1
          | some e ↦
              fail_or_again d (fault_error e) (wrapped "Starting transaction" (fault_error e))
        ]
          ≡ stop y
        → VarOutcome (after_begin b w (body w (start d r.faults)).0) y
    begun w r none y pw h =
        finished w (body w (start d r.faults)).0 r (body w (start d r.faults)).1 y pw
          (kept w r.faults pw) refl h
    begun w r (some f) y pw h =
        failed w (wrapped "Starting transaction" (fault_error f)) y pw (ground arith)

    tx_round-VarOutcome :
        (n : ℕ) (r : Round) (w : V) (y : Res A × D)
        → P w
        → tx_round (body_at body w) n r d ≡ stop y
        → VarOutcome (assigned body n r w d) y
    unfolding tx_round assigned
    tx_round-VarOutcome n r w y pw h = elim (Bool-cases (is_late n r)) [
      | inl late ↦
          rw late
            (failed w (message "Internal error: Transaction taking too long") y pw (ground arith))
      | inr early ↦ rw early (begun w r r.begin y pw (ground arith))
    ]

    assigned-kept : (n : ℕ) (r : Round) (w : V) → P w → P (assigned body n r w d)
    unfolding assigned
    assigned-kept n r w pw = elim (Bool-cases (is_late n r)) [
      | inl late ↦ rw late pw
      | inr early ↦ rw early (go r.begin)
    ]
      where
        go : (b : Option Fault) → P (after_begin b w (body w (start d r.faults)).0)
        go none = kept w r.faults pw
        go (some f) = pw

    tx_loop_var_from-VarOutcome :
        (n : ℕ) (rs : List Round) (w v : V) (y : Res A × D)
        → P w
        → tx_loop_var_from n body rs w d ≡ some (v, y)
        → VarOutcome v y
    unfolding tx_loop_var_from
    tx_loop_var_from-VarOutcome n [] w v y pw h = absurd (ground arith)
    tx_loop_var_from-VarOutcome n (r ∷ rs) w v y pw h =
        next (tx_round (body_at body w) (suc n) r d) refl (
          tx_loop_var_from-VarOutcome (suc n) rs (assigned body (suc n) r w d) v y
            (assigned-kept (suc n) r w pw))
      where
        next :
            (s : Next (Res A × D))
            → tx_round (body_at body w) (suc n) r d ≡ s
            → (tx_loop_var_from (suc n) body rs (assigned body (suc n) r w d) d ≡ some (v, y)
                → VarOutcome v y)
            → VarOutcome v y
        next (stop z) p ih =
            subst (λ x. VarOutcome x y) (ground arith)
              (tx_round-VarOutcome (suc n) r w y pw (ground arith))
        next again p ih = ih (ground arith)

    pub tx_loop_var-VarOutcome :
        (rs : List Round) (w v : V) (y : Res A × D)
        → P w
        → tx_loop_var body rs w d ≡ some (v, y)
        → VarOutcome v y
    unfolding tx_loop_var
    tx_loop_var-VarOutcome = tx_loop_var_from-VarOutcome 0

-- What a read of one row can come to.
abbrev pub RowOutcome : {D A : Type 0} → Option A → D → Res A × Conn D → Type 0
RowOutcome o d (ok a, c) = (o ≡ some a) × (c.db ≡ d)
RowOutcome o d (err e, c) = ((is_no_rows e ≡ false) ⊎ (o ≡ none)) × (c.db ≡ d)

module _ {D A : Type 0} where
  row-RowOutcome_at :
      (p o : Option A) (d : D) (fs : List (Option Fault))
      → RowOutcome o d (exec (get_row_into p (λ _. o)) (start d fs))
  unfolding exec get_row_into get_row
  row-RowOutcome_at p o d (some is_busy ∷ fs) = (inl refl, refl)
  row-RowOutcome_at p o d (some is_locked ∷ fs) = (inl refl, refl)
  row-RowOutcome_at p o d (some is_broken ∷ fs) = (inl refl, refl)
  row-RowOutcome_at none o d (none ∷ fs) = (inl refl, refl)
  row-RowOutcome_at (some x) none d (none ∷ fs) = (inr refl, refl)
  row-RowOutcome_at (some x) (some a) d (none ∷ fs) = (refl, refl)
  row-RowOutcome_at none o d [] = (inl refl, refl)
  row-RowOutcome_at (some x) none d [] = (inr refl, refl)
  row-RowOutcome_at (some x) (some a) d [] = (refl, refl)

  constant_read :
      (p : Option A) (f : D → Option A) (d : D) (fs : List (Option Fault))
      → exec (get_row_into p (λ _. f d)) (start d fs) ≡ exec (get_row_into p f) (start d fs)
  unfolding exec get_row_into get_row
  constant_read p f d (some e ∷ fs) = refl
  constant_read none f d (none ∷ fs) = refl
  constant_read (some x) f d (none ∷ fs) = refl
  constant_read none f d [] = refl
  constant_read (some x) f d [] = refl

  -- A pointer, nil or not, reads what the table has.
  pub row-RowOutcome :
      (p : Option A) (f : D → Option A) (d : D) (fs : List (Option Fault))
      → RowOutcome (f d) d (exec (get_row_into p f) (start d fs))
  row-RowOutcome p f d fs =
      subst (RowOutcome (f d) d) (constant_read p f d fs) (row-RowOutcome_at p (f d) d fs)

  -- The same of a loop round the statement.
  abbrev pub ReadOutcome : Option A → D → Res A × D → Type 0
  ReadOutcome o d (ok a, d') = (o ≡ some a) × (d' ≡ d)
  ReadOutcome o d (err e, d') = ((is_no_rows e ≡ false) ⊎ (o ≡ none)) × (d' ≡ d)

  pub exec_loop-ReadOutcome :
      (f : D → Option A) (fs : List (Option Fault)) (d : D) (y : Res A × D)
      → exec_loop (get_row f) fs d ≡ some y
      → ReadOutcome (f d) d y
  unfolding exec_loop get_row should_retry
  exec_loop-ReadOutcome f [] d y h = absurd (ground arith)
  exec_loop-ReadOutcome f (none ∷ fs) d y h = go (f d) y h
    where
      go :
          (o : Option A) (y : Res A × D)
          → exec_loop (get_row (λ _. o)) (none ∷ fs) d ≡ some y
          → ReadOutcome o d y
      go none (err e, d') k = (inr refl, ground arith)
      go none (ok a, d') k = absurd (ground arith)
      go (some b) (err e, d') k = absurd (ground arith)
      go (some b) (ok a, d') k = (ground arith, ground arith)
  exec_loop-ReadOutcome f (some is_busy ∷ fs) d y h = exec_loop-ReadOutcome f fs d y h
  exec_loop-ReadOutcome f (some is_locked ∷ fs) d y h = exec_loop-ReadOutcome f fs d y h
  exec_loop-ReadOutcome f (some is_broken ∷ fs) d (err e, d') h = (inl (ground arith), ground arith)
  exec_loop-ReadOutcome f (some is_broken ∷ fs) d (ok a, d') h = absurd (ground arith)

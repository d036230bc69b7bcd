-- ===== src/Tx/Atomic.antt =====
-- About the loops of event/eventdb.go: how they end, and with what database.
use session_scheduler.Base.{
  ℕ, suc, ◌+◌, ◌<◌, ◌≤◌, ◌≡◌, ◌≢◌, ◌⊎◌, inl, inr, refl, sym, ◌∙◌, subst, ◌&&◌, Option, none, some,
  List, [], ◌∷◌, ◌++◌, ltb, arith, Bool-cases, length,
}
use session_scheduler.Errors.{Error, message, wrapped, should_retry}
use session_scheduler.Tx.{
  Res, ok, err, Conn, Tx, Fault, fault_error, Statement, Round, Next, stop, again, finish,
  fail_or_again, tx_round, tx_loop_from, tx_loop, exec_loop, then_return, min_tx_retries,
  max_tx_time,
}

-- A body on a database `d`, with the driver's faults to come.
abbrev pub start : {D : Type 0} → D → List (Option Fault) → Conn D
start d fs = record { db = d; faults = fs }

abbrev pub Outcome : {D A : Type 0} → Tx D A → D → Res A × D → Type 0
Outcome body d (err e, d') = d' ≡ d
Outcome body d (ok a, d') =
    (fs : List (Option Fault)) × ((body (start d fs)).0 ≡ ok a) × (d' ≡ (body (start d fs)).1.db)

module _ {D : Type 0} {A : Type 0} (body : Tx D A) where
  finish-Outcome :
      (d : D) (r : Round) (x : Res A × Conn D) (y : Res A × D)
      → body (start d r.faults) ≡ x
      → finish d r x ≡ stop y
      → Outcome body d y
  finish-Outcome d r (err e, c) (err e', d') p h = ground arith
  finish-Outcome d r (err e, c) (ok a, d') p h = absurd (ground arith)
  finish-Outcome d r (ok a, c) (err e', d') p h = ground arith
  finish-Outcome d r (ok a, c) (ok a', d') p h = (r.faults, ground arith, ground arith)

  failed-Outcome : (d : D) (e : Error) (y : Res A × D) → y ≡ (err e, d) → Outcome body d y
  failed-Outcome d e (err e', d') p = ground arith
  failed-Outcome d e (ok a, d') p = absurd (ground arith)

  fail_or_again-Outcome :
      (d : D) (e e' : Error) (y : Res A × D) → fail_or_again d e e' ≡ stop y → Outcome body d y
  fail_or_again-Outcome d e e' y h = failed-Outcome d e' y (ground arith)

  begun-Outcome :
      (d : D) (r : Round) (b : Option Fault) (y : Res A × D)
      → r.begin ≡ b
      → elim b [
        | none ↦ finish d r (body (start d r.faults))
        | some e ↦ fail_or_again d (fault_error e) (wrapped "Starting transaction" (fault_error e))
      ]
        ≡ stop y
      → Outcome body d y
  begun-Outcome d r none y p h = finish-Outcome d r _ y refl h
  begun-Outcome d r (some f) y p h = fail_or_again-Outcome d _ _ y h

  tx_round-Outcome :
      (n : ℕ) (r : Round) (d : D) (y : Res A × D) → tx_round body n r d ≡ stop y → Outcome body d y
  unfolding tx_round
  tx_round-Outcome n r d y h =
      elim (Bool-cases (ltb min_tx_retries n && ltb max_tx_time r.elapsed)) [
        | inl late ↦
            failed-Outcome d (message "Internal error: Transaction taking too long") y
              (ground arith)
        | inr early ↦ begun-Outcome d r r.begin y refl (ground arith)
      ]

  tx_loop_from-Outcome :
      (n : ℕ) (rs : List Round) (d : D) (y : Res A × D)
      → tx_loop_from n body rs d ≡ some y
      → Outcome body d y
  unfolding tx_loop_from
  tx_loop_from-Outcome n [] d y h = absurd (ground arith)
  tx_loop_from-Outcome n (r ∷ rs) d y h =
      next (tx_round body (suc n) r d) refl (tx_loop_from-Outcome (suc n) rs d y)
    where
      next :
          (s : Next (Res A × D))
          → tx_round body (suc n) r d ≡ s
          → (tx_loop_from (suc n) body rs d ≡ some y → Outcome body d y)
          → Outcome body d y
      next (stop z) p ih = tx_round-Outcome (suc n) r d y (ground arith)
      next again p ih = ih (ground arith)

  -- Whatever the driver does in however many rounds, a call of `txLoop` that returns an error has
  -- left the database as it was, and one that succeeds has made the changes of exactly one run of
  -- the body on the database that it found.
  pub tx_loop_atomic :
      (rs : List Round) (d : D) (y : Res A × D) → tx_loop body rs d ≡ some y → Outcome body d y
  unfolding tx_loop
  tx_loop_atomic rs d y h = tx_loop_from-Outcome 0 rs d y h

  tx_loop_from_ends :
      (n : ℕ) (rs : List Round) (r : Round) (rest : List Round) (d : D)
      → min_tx_retries < n + length rs + 1
      → max_tx_time < r.elapsed
      → (y : Res A × D) × (tx_loop_from n body (rs ++ r ∷ rest) d ≡ some y)
  unfolding tx_loop_from tx_round
  tx_loop_from_ends n [] r rest d enough late =
      ((err (message "Internal error: Transaction taking too long"), d), ground arith)
  tx_loop_from_ends n (r' ∷ rs) r rest d enough late =
      next (tx_round body (suc n) r' d) refl
        (tx_loop_from_ends (suc n) rs r rest d (omega arith) late)
    where
      next :
          (s : Next (Res A × D))
          → tx_round body (suc n) r' d ≡ s
          → (y : Res A × D) × (tx_loop_from (suc n) body (rs ++ r ∷ rest) d ≡ some y)
          → (y : Res A × D) × (tx_loop_from n body (r' ∷ rs ++ r ∷ rest) d ≡ some y)
      next (stop z) p ih = (z, ground arith)
      next again p ih = (ih.0, rw (p, tx_loop_from) ih.1)

  -- `txLoop` ends, whatever its body and the driver do, at the latest in the first round after the
  -- fifth that starts more than a second after the call.
  pub tx_loop_ends :
      (rs : List Round) (r : Round) (rest : List Round) (d : D)
      → min_tx_retries ≤ length rs
      → max_tx_time < r.elapsed
      → (y : Res A × D) × (tx_loop body (rs ++ r ∷ rest) d ≡ some y)
  unfolding tx_loop
  tx_loop_ends rs r rest d enough late = tx_loop_from_ends 0 rs r rest d (omega arith) late

module _ {D : Type 0} {A : Type 0} (body : Tx D A) where
  -- A round in which nothing but the statements of the body can fail settles the call.
  pub tx_loop_settles :
      (r : Round) (rs : List Round) (d : D) (a : A)
      → r.begin ≡ none
      → r.commit ≡ none
      → (body (start d r.faults)).0 ≡ ok a
      → tx_loop body (r ∷ rs) d ≡ some (ok a, (body (start d r.faults)).1.db)
  unfolding tx_loop tx_loop_from tx_round
  tx_loop_settles r rs d a begun committed h = ground arith

-- The loop round one statement changes the database only when it returns no error, and then to
-- what the statement makes of it.
pub exec_loop_atomic :
    {D A : Type 0} (s : Statement D A) (fs : List (Option Fault)) (d d' : D) (x : Res A)
    → exec_loop s fs d ≡ some (x, d')
    → (((a : A) × (x ≡ ok a) × (s d ≡ ok (d', a))) ⊎ ((e : Error) × (x ≡ err e) × (d' ≡ d)))
unfolding exec_loop
exec_loop_atomic s [] d d' x h = absurd (ground arith)
exec_loop_atomic {D} {A} s (none ∷ fs) d d' x h = go (s d) refl
  where
    go :
        (y : Res (D × A))
        → s d ≡ y
        → (((a : A) × (x ≡ ok a) × (s d ≡ ok (d', a))) ⊎ ((e : Error) × (x ≡ err e) × (d' ≡ d)))
    go (ok (d'', a)) p = inl (a, ground arith, ground arith)
    go (err e) p = inr (e, ground arith, ground arith)
exec_loop_atomic s (some e ∷ fs) d d' x h = elim (Bool-cases (should_retry (fault_error e))) [
  | inl retry ↦ exec_loop_atomic s fs d d' x (ground arith)
  | inr broken ↦ inr (fault_error e, ground arith, ground arith)
]

module _ {D A : Type 0} (s : Statement D A) (fs : List (Option Fault)) (d d' : D) where
  pub exec_loop-ok : (a : A) → exec_loop s fs d ≡ some (ok a, d') → s d ≡ ok (d', a)
  exec_loop-ok a h = elim (exec_loop_atomic s fs d d' (ok a) h) [
    | inl (b, p, q) ↦ ground arith
    | inr (e, p, q) ↦ absurd (ground arith)
  ]

  pub exec_loop-err : (e : Error) → exec_loop s fs d ≡ some (err e, d') → d' ≡ d
  exec_loop-err e h = elim (exec_loop_atomic s fs d d' (err e) h) [
    | inl (b, p, q) ↦ absurd (ground arith)
    | inr (e', p, q) ↦ q
  ]

  -- The statement behind a success, where the code after the loop makes no success of an error.
  pub then_return-ok :
      {B : Type 0} (f : A → Res B) (g : Error → Res B) (b : B)
      → ((e : Error) → g e ≢ ok b)
      → then_return f g (exec_loop s fs d) ≡ some (ok b, d')
      → (a : A) × (f a ≡ ok b) × (s d ≡ ok (d', a))
  then_return-ok {B} f g b fails h = go (exec_loop s fs d) refl h
    where
      go :
          (o : Option (Res A × D))
          → exec_loop s fs d ≡ o
          → then_return f g o ≡ some (ok b, d')
          → (a : A) × (f a ≡ ok b) × (s d ≡ ok (d', a))
      go none p k = absurd (ground arith)
      go (some (err e, d'')) p k = absurd (fails e (ground arith))
      go (some (ok a, d'')) p k = (a, ground arith, exec_loop-ok a (ground arith))

  -- An error after the loop means that nothing changed, where the code after the loop makes no
  -- error of a success.
  pub then_return-err :
      {B : Type 0} (f : A → Res B) (g : Error → Res B) (e : Error)
      → ((a : A) → f a ≢ err e)
      → then_return f g (exec_loop s fs d) ≡ some (err e, d')
      → d' ≡ d
  then_return-err {B} f g e fails h = go (exec_loop s fs d) refl h
    where
      go :
          (o : Option (Res A × D))
          → exec_loop s fs d ≡ o
          → then_return f g o ≡ some (err e, d')
          → d' ≡ d
      go none p k = absurd (ground arith)
      go (some (err e', d'')) p k = exec_loop-err e' (ground arith)
      go (some (ok a, d'')) p k = absurd (fails a (ground arith))

-- What holds before a loop round one statement and after the statement holds after the loop and
-- whatever follows it.
pub then_return-keeps :
    {D A B : Type 0} (P : D → Type 0) (s : Statement D A) (fs : List (Option Fault)) (d d' : D)
    (f : A → Res B) (g : Error → Res B) (r : Res B)
    → P d
    → ((x : D) (a : A) → s d ≡ ok (x, a) → P x)
    → then_return f g (exec_loop s fs d) ≡ some (r, d')
    → P d'
then_return-keeps {D} {A} {B} P s fs d d' f g r before after h = go (exec_loop s fs d) refl h
  where
    go : (o : Option (Res A × D)) → exec_loop s fs d ≡ o → then_return f g o ≡ some (r, d') → P d'
    go none p k = absurd (ground arith)
    go (some (ok a, x)) p k = subst P (ground arith) (after x a (exec_loop-ok s fs d x a p))
    go (some (err e, x)) p k = subst P (sym (exec_loop-err s fs d x e p) ∙ ground arith) before

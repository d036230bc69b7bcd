-- ===== src/Tx/Steady.antt =====
-- Bodies whose success does not depend on the driver: what they return and do when they succeed
-- is what they return and do when the driver reports no fault at all.
use session_scheduler.Base.{
  ℕ, String, ◌≡◌, ◌↔◌, subst, refl, Bool, true, false, Option, none, some, List, [], ◌∷◌, arith,
  if◌then◌else◌, ap, sym, ◌∙◌,
}
use session_scheduler.Errors.{Error, internal}
use session_scheduler.Tx.{
  Res, ok, err, Conn, Tx, Fault, Statement, Round, pure, throw, exec, ◌>>=◌, ◌>>◌, or_retry,
  is_busy, is_locked, is_broken, on_no_rows, recover, settle, bind, relabel, tx_loop, expect_one,
}
use session_scheduler.Tx.Atomic.{start, tx_loop_atomic}

pub record Steady {D A : Type 0} (m : Tx D A) : Type 0 where
  pub clean : (d : D) → (m (start d [])).1.faults ≡ []
  pub same :
      (d : D) (fs : List (Option Fault)) (a : A)
      → (m (start d fs)).0 ≡ ok a
      → ((m (start d [])).0 ≡ ok a) × ((m (start d [])).1.db ≡ (m (start d fs)).1.db)

module _ {D : Type 0} where
  pub Steady-pure : {A : Type 0} (a : A) → Steady {D = D} (pure a)
  unfolding pure
  Steady-pure a = record { clean = λ d. refl; same = λ d fs b h. (h, refl) }

  pub Steady-throw : {A : Type 0} (e : Error) → Steady {D = D} {A = A} (throw e)
  unfolding throw
  Steady-throw e = record { clean = λ d. refl; same = λ d fs b h. (h, refl) }

  settle-clean : {A : Type 0} (c : Conn D) (r : Res (D × A)) → (settle c r).1.faults ≡ c.faults
  settle-clean c (ok (d, a)) = refl
  settle-clean c (err e) = refl

  settle-same :
      {A : Type 0} (d : D) (fs gs : List (Option Fault)) (r : Res (D × A))
      → ((settle (start d fs) r).0 ≡ (settle (start d gs) r).0)
        × ((settle (start d fs) r).1.db ≡ (settle (start d gs) r).1.db)
  settle-same d fs gs (ok (d', a)) = (refl, refl)
  settle-same d fs gs (err e) = (refl, refl)

  pub Steady-exec : {A : Type 0} (s : Statement D A) → Steady (exec s)
  unfolding exec
  Steady-exec {A} s = record { clean = λ d. settle-clean (start d []) (s d); same = same }
    where
      same :
          (d : D) (fs : List (Option Fault)) (a : A)
          → (exec s (start d fs)).0 ≡ ok a
          → ((exec s (start d [])).0 ≡ ok a)
            × ((exec s (start d [])).1.db ≡ (exec s (start d fs)).1.db)
      same d [] a h = (h, refl)
      same d (none ∷ fs) a h = let e = settle-same d [] fs (s d) in (e.0 ∙ h, e.1)
      same d (some f ∷ fs) a h = absurd (ground arith)

  bind-clean :
      {A B : Type 0} (f : A → Tx D B)
      → ((a : A) → Steady (f a))
      → (x : Res A × Conn D) → x.1.faults ≡ []
      → (bind f x).1.faults ≡ []
  bind-clean f hf (ok a, c) h =
      subst (λ fs. (f a (start c.db fs)).1.faults ≡ []) (sym h) ((hf a).clean c.db)
  bind-clean f hf (err e, c) h = h

  bind-same :
      {A B : Type 0} (f : A → Tx D B)
      → ((a : A) → Steady (f a))
      → (x y : Res A × Conn D) → ((a : A) → x.0 ≡ ok a → (y.0 ≡ ok a) × (y.1.db ≡ x.1.db))
      → y.1.faults ≡ []
      → (b : B) → (bind f x).0 ≡ ok b
      → ((bind f y).0 ≡ ok b) × ((bind f y).1.db ≡ (bind f x).1.db)
  bind-same f hf (ok a, c) y k cl b h =
      let e : y ≡ (ok a, start c.db []) =
        (λ i. ((k a refl).0 i, record { db = (k a refl).1 i; faults = cl i })) in
      subst (λ z. ((bind f z).0 ≡ ok b) × ((bind f z).1.db ≡ (f a c).1.db)) (sym e)
        ((hf a).same c.db c.faults b h)
  bind-same f hf (err e, c) y k cl b h = absurd (ground arith)

  pub Steady-bind :
      {A B : Type 0} (m : Tx D A) (f : A → Tx D B)
      → Steady m
      → ((a : A) → Steady (f a))
      → Steady (m >>= f)
  unfolding ◌>>=◌
  Steady-bind {A} {B} m f hm hf = record {
    clean = λ d. bind-clean f hf (m (start d [])) (hm.clean d);
    same = λ d fs. bind-same f hf (m (start d fs)) (m (start d [])) (hm.same d fs) (hm.clean d);
  }

  pub Steady-then :
      {B : Type 0} (m : Tx D (Unit {0})) (k : Tx D B) → Steady m → Steady k → Steady (m >> k)
  unfolding ◌>>◌
  Steady-then m k hm hk = record {
    clean = λ d. bind-clean (λ _. k) (λ _. hk) (m (start d [])) (hm.clean d);
    same = λ d fs.
        bind-same (λ _. k) (λ _. hk) (m (start d fs)) (m (start d [])) (hm.same d fs) (hm.clean d);
  }

  relabel-faults : {A : Type 0} (c : String) (x : Res A × Conn D) → (relabel c x).1 ≡ x.1
  relabel-faults c (ok a, s) = refl
  relabel-faults c (err e, s) = refl

  relabel-ok :
      {A : Type 0} (c : String) (x : Res A × Conn D) (a : A)
      → ((relabel c x).0 ≡ ok a) ↔ (x.0 ≡ ok a)
  relabel-ok c (ok a, s) b = (λ h. h, λ h. h)
  relabel-ok c (err e, s) b = (λ h. absurd (ground arith), λ h. absurd (ground arith))

  pub Steady-or_retry : {A : Type 0} (c : String) (m : Tx D A) → Steady m → Steady (or_retry c m)
  unfolding or_retry
  Steady-or_retry c m hm = record {
    clean = λ d. ap (λ s. s.faults) (relabel-faults c (m (start d []))) ∙ hm.clean d;
    same = λ d fs a h.
        let e = hm.same d fs a ((relabel-ok c (m (start d fs)) a).0 h) in
        (
          (relabel-ok c (m (start d [])) a).1 e.0,
          ap (λ s. s.db) (relabel-faults c (m (start d [])))
              ∙ e.1
              ∙ sym (ap (λ s. s.db) (relabel-faults c (m (start d fs)))),
        );
  }

  -- No fault of the driver is sql.ErrNoRows, so the recovery is the same whatever the driver does:
  -- of the body it asks that its failures with that error be the same too.
  pub Steady-on_no_rows-exec :
      {A : Type 0} (a : A) (s : Statement D A) → Steady (on_no_rows a (exec s))
  unfolding on_no_rows exec
  Steady-on_no_rows-exec {A} a s = record { clean = λ d. clean d (s d); same = same }
    where
      clean : (d : D) (r : Res (D × A)) → (recover a (settle (start d []) r)).1.faults ≡ []
      clean d (ok x) = refl
      clean d (err e) = refl

      settled :
          (d : D) (fs : List (Option Fault)) (r : Res (D × A)) (b : A)
          → (recover a (settle (start d fs) r)).0 ≡ ok b
          → ((recover a (settle (start d []) r)).0 ≡ ok b)
            × ((recover a (settle (start d []) r)).1.db ≡ (recover a (settle (start d fs) r)).1.db)
      settled d fs (ok x) b h = (h, refl)
      settled d fs (err e) b h = (h, refl)

      same :
          (d : D) (fs : List (Option Fault)) (b : A)
          → (on_no_rows a (exec s) (start d fs)).0 ≡ ok b
          → ((on_no_rows a (exec s) (start d [])).0 ≡ ok b)
            × ((on_no_rows a (exec s) (start d [])).1.db
                ≡ (on_no_rows a (exec s) (start d fs)).1.db)
      same d [] b h = (h, refl)
      same d (none ∷ fs) b h = settled d fs (s d) b h
      same d (some is_busy ∷ fs) b h = absurd (ground arith)
      same d (some is_locked ∷ fs) b h = absurd (ground arith)
      same d (some is_broken ∷ fs) b h = absurd (ground arith)

  pub Steady-if :
      {A : Type 0} (b : Bool) (m k : Tx D A) → Steady m → Steady k → Steady (if b then m else k)
  Steady-if true m k hm hk = hm
  Steady-if false m k hm hk = hk

  -- The run with no fault behind a success of the loop.
  pub tx_loop_ran :
      {A : Type 0} (m : Tx D A)
      → Steady m
      → (rs : List Round) (d d' : D) (a : A) → tx_loop m rs d ≡ some (ok a, d')
      → m (start d []) ≡ (ok a, start d' [])
  tx_loop_ran m hm rs d d' a h =
      let (fs, p, q) = tx_loop_atomic m rs d (ok a, d') h in
      let e = hm.same d fs a p in
      λ i. (e.0 i, record { db = (e.1 ∙ sym q) i; faults = hm.clean d i })

  pub tx_loop-Steady :
      {A : Type 0} (m : Tx D A)
      → Steady m
      → (rs : List Round) (d d' : D) (a : A) → tx_loop m rs d ≡ some (ok a, d')
      → ((m (start d [])).0 ≡ ok a) × ((m (start d [])).1.db ≡ d')
  tx_loop-Steady m hm rs d d' a h =
      let (fs, p, q) = tx_loop_atomic m rs d (ok a, d') h in
      let e = hm.same d fs a p in (e.0, e.1 ∙ sym q)

pub ruleset steady_rules = (
  Steady-pure, Steady-throw, Steady-exec, Steady-bind, Steady-then, Steady-or_retry,
  Steady-on_no_rows-exec, Steady-if,
)

pub Steady-expect_one : {D : Type 0} (e : Error) (n : ℕ) → Steady {D = D} (expect_one e n)
unfolding expect_one
Steady-expect_one e n =
    Steady-if _ _ _ (Steady-throw e) (Steady-if _ _ _ (Steady-throw internal) (Steady-pure tt))

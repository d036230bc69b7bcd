-- ===== src/Tx/Reads.antt =====
-- Transactions that only read.
use session_scheduler.Base.{
  String, ◌≡◌, refl, ◌∙◌, Bool, true, false, Option, none, some, List, [], ◌∷◌, if◌then◌else◌,
}
use session_scheduler.Errors.{Error}
use session_scheduler.Tx.{
  Res, ok, err, Conn, Tx, Fault, Round, bind, relabel, pure, throw, exec, query, ◌>>=◌, ◌>>◌,
  or_retry, tx_loop,
}
use session_scheduler.Tx.Atomic.{start, tx_loop_atomic}

-- However it ends, the database is the same.
pub record Reads {D A : Type 0} (m : Tx D A) : Type 0 where
  pub kept : (d : D) (fs : List (Option Fault)) → (m (start d fs)).1.db ≡ d

module _ {D : Type 0} where
  pub Reads-pure : {A : Type 0} (a : A) → Reads {D = D} (pure a)
  unfolding pure
  Reads-pure a = record { kept = λ d fs. refl }

  pub Reads-throw : {A : Type 0} (e : Error) → Reads {D = D} {A = A} (throw e)
  unfolding throw
  Reads-throw e = record { kept = λ d fs. refl }

  pub Reads-query : {A : Type 0} (f : D → A) → Reads (exec (query f))
  unfolding exec query
  Reads-query f = record { kept = go }
    where
      go : (d : D) (fs : List (Option Fault)) → (exec (query f) (start d fs)).1.db ≡ d
      go d [] = refl
      go d (none ∷ fs) = refl
      go d (some e ∷ fs) = refl

  bind-db :
      {A B : Type 0} (f : A → Tx D B)
      → ((a : A) → Reads (f a))
      → (x : Res A × Conn D) → (bind f x).1.db ≡ x.1.db
  bind-db f h (ok a, c) = (h a).kept c.db c.faults
  bind-db f h (err e, c) = refl

  pub Reads-bind :
      {A B : Type 0} (m : Tx D A) (f : A → Tx D B)
      → Reads m
      → ((a : A) → Reads (f a))
      → Reads (m >>= f)
  unfolding ◌>>=◌
  Reads-bind m f hm hf = record { kept = λ d fs. bind-db f hf (m (start d fs)) ∙ hm.kept d fs }

  pub Reads-then :
      {B : Type 0} (m : Tx D (Unit {0})) (k : Tx D B) → Reads m → Reads k → Reads (m >> k)
  unfolding ◌>>◌
  Reads-then m k hm hk = record {
    kept = λ d fs. bind-db (λ _. k) (λ _. hk) (m (start d fs)) ∙ hm.kept d fs;
  }

  relabel-db : {A : Type 0} (t : String) (x : Res A × Conn D) → (relabel t x).1.db ≡ x.1.db
  relabel-db t (ok a, c) = refl
  relabel-db t (err e, c) = refl

  pub Reads-or_retry : {A : Type 0} (t : String) (m : Tx D A) → Reads m → Reads (or_retry t m)
  unfolding or_retry
  Reads-or_retry t m h = record { kept = λ d fs. relabel-db t (m (start d fs)) ∙ h.kept d fs }

  pub Reads-if :
      {A : Type 0} (b : Bool) (m k : Tx D A) → Reads m → Reads k → Reads (if b then m else k)
  Reads-if true m k hm hk = hm
  Reads-if false m k hm hk = hk

  -- A loop round it leaves the database as it was.
  pub tx_loop-Reads :
      {A : Type 0} (m : Tx D A)
      → Reads m
      → (rs : List Round) (d d' : D) (r : Res A) → tx_loop m rs d ≡ some (r, d')
      → d' ≡ d
  tx_loop-Reads m h rs d d' (ok a) e =
      let (fs, p, q) = tx_loop_atomic m rs d (ok a, d') e in q ∙ h.kept d fs
  tx_loop-Reads m h rs d d' (err x) e = tx_loop_atomic m rs d (err x, d') e

-- ===== src/Tx/Run.antt =====
-- Running a body step by step where the driver reports no fault.
use session_scheduler.Base.{ℕ, String, ◌≡◌, refl, ap, subst, ◌∙◌, Option, some, [], arith, nat_key}
use session_scheduler.Errors.{Error}
use session_scheduler.Tx.{
  Res, ok, err, Conn, Tx, Statement, exec, ◌>>=◌, ◌>>◌, or_retry, bind, relabel, settle, expect_one,
  pure, throw, query, get_row,
}
use session_scheduler.Tx.Atomic.{start}

module _ {D : Type 0} where
  pub exec-ok :
      {A : Type 0} (s : Statement D A) (d d' : D) (a : A)
      → s d ≡ ok (d', a)
      → exec s (start d []) ≡ (ok a, start d' [])
  unfolding exec
  exec-ok s d d' a h = ap (settle (start d [])) h

  pub or_retry-ok :
      {A : Type 0} (t : String) (m : Tx D A) {c c' : Conn D} {a : A}
      → m c ≡ (ok a, c')
      → or_retry t m c ≡ (ok a, c')
  unfolding or_retry
  or_retry-ok t m h = ap (relabel t) h

  pub >>=-ok :
      {A B : Type 0} (m : Tx D A) (f : A → Tx D B) {c c' : Conn D} {a : A}
      → m c ≡ (ok a, c')
      → (m >>= f) c ≡ f a c'
  unfolding ◌>>=◌
  >>=-ok m f h = ap (bind f) h

  -- `or_retry` round one statement: the common step.
  pub try-ok :
      {A : Type 0} (t : String) (s : Statement D A) (d d' : D) (a : A)
      → s d ≡ ok (d', a)
      → or_retry t (exec s) (start d []) ≡ (ok a, start d' [])
  try-ok t s d d' a h = or_retry-ok t (exec s) (exec-ok s d d' a h)

  pub expect_one-one : (e : Error) (n : ℕ) (c : Conn D) → n ≡ 1 → expect_one e n c ≡ (ok tt, c)
  unfolding expect_one
  expect_one-one e n c h = rw h refl

  -- A run that succeeds, taken apart step by step.
  pub >>=-ran :
      {A B : Type 0} (m : Tx D A) (f : A → Tx D B) {c c₂ : Conn D} {b : B}
      → (m >>= f) c ≡ (ok b, c₂)
      → (a : A) × (c₁ : Conn D) × (m c ≡ (ok a, c₁)) × (f a c₁ ≡ (ok b, c₂))
  unfolding ◌>>=◌
  >>=-ran {A} {B} m f {c} {c₂} {b} h = go (m c) h
    where
      go :
          (x : Res A × Conn D)
          → bind f x ≡ (ok b, c₂)
          → (a : A) × (c₁ : Conn D) × (x ≡ (ok a, c₁)) × (f a c₁ ≡ (ok b, c₂))
      go (ok a, c') k = (a, c', refl, k)
      go (err e, c') k = absurd (ground arith)

  pub >>-ran :
      {B : Type 0} (m : Tx D (Unit {0})) (k : Tx D B) {c c₂ : Conn D} {b : B}
      → (m >> k) c ≡ (ok b, c₂)
      → (c₁ : Conn D) × (m c ≡ (ok tt, c₁)) × (k c₁ ≡ (ok b, c₂))
  unfolding ◌>>◌
  >>-ran {B} m k {c} {c₂} {b} h = go (m c) h
    where
      go :
          (x : Res (Unit {0}) × Conn D)
          → bind (λ _. k) x ≡ (ok b, c₂)
          → (c₁ : Conn D) × (x ≡ (ok tt, c₁)) × (k c₁ ≡ (ok b, c₂))
      go (ok a, c') h = (c', refl, h)
      go (err e, c') h = absurd (ground arith)

  pub exec-ran :
      {A : Type 0} (s : Statement D A) (d : D) {c₁ : Conn D} {a : A}
      → exec s (start d []) ≡ (ok a, c₁)
      → (d' : D) × (c₁ ≡ start d' []) × (s d ≡ ok (d', a))
  unfolding exec
  exec-ran {A} s d {c₁} {a} h = go (s d) h
    where
      go :
          (r : Res (D × A))
          → settle (start d []) r ≡ (ok a, c₁)
          → (d' : D) × (c₁ ≡ start d' []) × (r ≡ ok (d', a))
      go (ok (d', a')) k = (d', ground arith, ground arith)
      go (err e) k = absurd (ground arith)

  pub or_retry-ran :
      {A : Type 0} (t : String) (m : Tx D A) {c c₁ : Conn D} {a : A}
      → or_retry t m c ≡ (ok a, c₁)
      → m c ≡ (ok a, c₁)
  unfolding or_retry
  or_retry-ran {A} t m {c} {c₁} {a} h = go (m c) h
    where
      go : (x : Res A × Conn D) → relabel t x ≡ (ok a, c₁) → x ≡ (ok a, c₁)
      go (ok a', c') k = k
      go (err e, c') k = absurd (ground arith)

  pub exec->>=-ran :
      {A B : Type 0} (s : Statement D A) (f : A → Tx D B) (d : D) {c₂ : Conn D} {b : B}
      → (exec s >>= f) (start d []) ≡ (ok b, c₂)
      → (a : A) × (d' : D) × (s d ≡ ok (d', a)) × (f a (start d' []) ≡ (ok b, c₂))
  exec->>=-ran s f d {c₂} {b} h =
      let (a, c₁, p, q) = >>=-ran (exec s) f h in
      let (d', e, r) = exec-ran s d p in (a, d', r, subst (λ c. f a c ≡ (ok b, c₂)) e q)

  pub try->>=-ran :
      {A B : Type 0} (t : String) (s : Statement D A) (f : A → Tx D B) (d : D) {c₂ : Conn D} {b : B}
      → (or_retry t (exec s) >>= f) (start d []) ≡ (ok b, c₂)
      → (a : A) × (d' : D) × (s d ≡ ok (d', a)) × (f a (start d' []) ≡ (ok b, c₂))
  try->>=-ran t s f d {c₂} {b} h =
      let (a, c₁, p, q) = >>=-ran (or_retry t (exec s)) f h in
      let (d', e, r) = exec-ran s d (or_retry-ran t (exec s) p) in
      (a, d', r, subst (λ c. f a c ≡ (ok b, c₂)) e q)

  pub exec->>-ran :
      {B : Type 0} (s : Statement D (Unit {0})) (k : Tx D B) (d : D) {c₂ : Conn D} {b : B}
      → (exec s >> k) (start d []) ≡ (ok b, c₂)
      → (d' : D) × (s d ≡ ok (d', tt)) × (k (start d' []) ≡ (ok b, c₂))
  exec->>-ran s k d {c₂} {b} h =
      let (c₁, p, q) = >>-ran (exec s) k h in
      let (d', e, r) = exec-ran s d p in (d', r, subst (λ c. k c ≡ (ok b, c₂)) e q)

  pub try->>-ran :
      {B : Type 0} (t : String) (s : Statement D (Unit {0})) (k : Tx D B) (d : D) {c₂ : Conn D}
      {b : B}
      → (or_retry t (exec s) >> k) (start d []) ≡ (ok b, c₂)
      → (d' : D) × (s d ≡ ok (d', tt)) × (k (start d' []) ≡ (ok b, c₂))
  try->>-ran t s k d {c₂} {b} h =
      let (c₁, p, q) = >>-ran (or_retry t (exec s)) k h in
      let (d', e, r) = exec-ran s d (or_retry-ran t (exec s) p) in
      (d', r, subst (λ c. k c ≡ (ok b, c₂)) e q)

  pub query-ran :
      {A : Type 0} (f : D → A) {d d' : D} {a : A} → query f d ≡ ok (d', a) → (d' ≡ d) × (a ≡ f d)
  unfolding query
  query-ran f h = (ground arith, ground arith)

  pub get_row-ran :
      {A : Type 0} (f : D → Option A) {d d' : D} {a : A}
      → get_row f d ≡ ok (d', a)
      → (d' ≡ d) × (f d ≡ some a)
  unfolding get_row
  get_row-ran f h = (ground arith, ground arith)

  -- The steps that only read.
  pub query->>=-ran :
      {A B : Type 0} (t : String) (f : D → A) (k : A → Tx D B) (d : D) {c₂ : Conn D} {b : B}
      → (or_retry t (exec (query f)) >>= k) (start d []) ≡ (ok b, c₂)
      → k (f d) (start d []) ≡ (ok b, c₂)
  query->>=-ran t f k d {c₂} {b} h =
      let (a, d', p, q) = try->>=-ran t (query f) k d h in
      let (e, e') = query-ran f p in
      subst (λ x. k x (start d []) ≡ (ok b, c₂)) e' (subst (λ x. k a (start x []) ≡ (ok b, c₂)) e q)

  pub get_row->>=-ran :
      {A B : Type 0} (f : D → Option A) (k : A → Tx D B) (d : D) {c₂ : Conn D} {b : B}
      → (exec (get_row f) >>= k) (start d []) ≡ (ok b, c₂)
      → (a : A) × (f d ≡ some a) × (k a (start d []) ≡ (ok b, c₂))
  get_row->>=-ran f k d {c₂} {b} h =
      let (a, d', p, q) = exec->>=-ran (get_row f) k d h in
      let (e, found) = get_row-ran f p in (a, found, subst (λ x. k a (start x []) ≡ (ok b, c₂)) e q)

  pub try_row->>=-ran :
      {A B : Type 0} (t : String) (f : D → Option A) (k : A → Tx D B) (d : D) {c₂ : Conn D} {b : B}
      → (or_retry t (exec (get_row f)) >>= k) (start d []) ≡ (ok b, c₂)
      → (a : A) × (f d ≡ some a) × (k a (start d []) ≡ (ok b, c₂))
  try_row->>=-ran t f k d {c₂} {b} h =
      let (a, d', p, q) = try->>=-ran t (get_row f) k d h in
      let (e, found) = get_row-ran f p in (a, found, subst (λ x. k a (start x []) ≡ (ok b, c₂)) e q)

  pub try_row-ran :
      {A : Type 0} (t : String) (f : D → Option A) (d : D) {c : Conn D} {a : A}
      → or_retry t (exec (get_row f)) (start d []) ≡ (ok a, c)
      → (c ≡ start d []) × (f d ≡ some a)
  try_row-ran t f d h =
      let (d', e, p) = exec-ran (get_row f) d (or_retry-ran t (exec (get_row f)) h) in
      let (same, found) = get_row-ran f p in (e ∙ ap (λ x. start x []) same, found)

  pub pure-ran : {A : Type 0} (a b : A) (c c' : Conn D) → pure a c ≡ (ok b, c') → (a ≡ b) × (c ≡ c')
  unfolding pure
  pure-ran a b c c' h = (ground arith, ground arith)

  -- A step that leaves the connection as it is.
  pub check->>-ran :
      {B : Type 0} (m : Tx D (Unit {0})) (k : Tx D B) {c c₂ : Conn D} {b : B}
      → ((c₁ : Conn D) → m c ≡ (ok tt, c₁) → c₁ ≡ c)
      → (m >> k) c ≡ (ok b, c₂)
      → ((m c).0 ≡ ok tt) × (k c ≡ (ok b, c₂))
  check->>-ran m k {c} {c₂} {b} keep h =
      let (c₁, p, q) = >>-ran m k h in
      (ap (λ z. z.0) p, subst (λ x. k x ≡ (ok b, c₂)) (keep c₁ p) q)

  pub expect_one-inv :
      (e : Error) (n : ℕ) (c : Conn D)
      → (expect_one e n c).0 ≡ ok tt
      → (n ≡ 1) × ((expect_one e n c).1 ≡ c)
  unfolding expect_one pure throw
  expect_one-inv e n c h = ground arith

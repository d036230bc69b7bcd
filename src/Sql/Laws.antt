-- ===== src/Sql/Laws.antt =====
-- Laws of the SQL operations.
use session_scheduler.Base.{
  ℕ, ◌≤◌, ◌<◌, max, Bool, true, false, not, ◌||◌, List, [], ◌∷◌, ◌++◌, any, All, All-map, ◌≡◌, refl,
  arith, Bool-cases, inl, inr,
}
use session_scheduler.Sql.{update_where, select, delete_where, count_where, max_of}

module _ {ℓ} {A : Type ℓ} where
  pub All-select {κ} :
      (P : A → Type κ) (p : A → Bool) (xs : List A) → All P xs → All P (select p xs)
  unfolding select
  All-select P p [] h = tt
  All-select P p (x ∷ xs) h = elim (Bool-cases (p x)) [
    | inl e ↦ rw e (h.0, All-select P p xs h.1)
    | inr e ↦ rw e (All-select P p xs h.1)
  ]

  -- The rows read pass the test.
  pub select_passes : (p : A → Bool) (xs : List A) → All (λ x. p x ≡ true) (select p xs)
  unfolding select
  select_passes p [] = tt
  select_passes p (x ∷ xs) = elim (Bool-cases (p x)) [
    | inl e ↦ rw e (e, select_passes p xs)
    | inr e ↦ rw e (select_passes p xs)
  ]

  pub any-select_ne :
      (q p : A → Bool) (xs : List A)
      → ((x : A) → q x ≡ true → p x ≡ false)
      → any q (select p xs) ≡ false
  unfolding select
  any-select_ne q p [] h = refl
  any-select_ne q p (x ∷ xs) h = ground (arith, h x, any-select_ne q p xs h)

  -- A deletion leaves nothing that its test implies.
  pub any-delete_where :
      (q p : A → Bool) (xs : List A)
      → ((x : A) → q x ≡ true → p x ≡ true)
      → any q (delete_where p xs) ≡ false
  unfolding delete_where select
  any-delete_where q p [] h = refl
  any-delete_where q p (x ∷ xs) h = ground (arith, h x, any-delete_where q p xs h)

  pub any-delete_where_le :
      (q p : A → Bool) (xs : List A) → any q xs ≡ false → any q (delete_where p xs) ≡ false
  unfolding delete_where select
  any-delete_where_le q p [] h = refl
  any-delete_where_le q p (x ∷ xs) h = ground (arith, any-delete_where_le q p xs)

  pub delete_where_none : (p : A → Bool) (xs : List A) → any p xs ≡ false → delete_where p xs ≡ xs
  unfolding delete_where select
  delete_where_none p [] h = refl
  delete_where_none p (x ∷ xs) h = ground (arith, delete_where_none p xs)

  pub count_where_none : (p : A → Bool) (xs : List A) → any p xs ≡ false → count_where p xs ≡ 0
  unfolding count_where select
  count_where_none p [] h = refl
  count_where_none p (x ∷ xs) h = ground (arith, count_where_none p xs)

  pub count_where_some : (p : A → Bool) (xs : List A) → any p xs ≡ true → 0 < count_where p xs
  unfolding count_where select
  count_where_some p [] h = cc
  count_where_some p (x ∷ xs) h = ground (arith, count_where_some p xs)

  pub le-max_of : (key : A → ℕ) (xs : List A) → All (λ x. key x ≤ max_of key xs) xs
  unfolding max_of
  le-max_of key [] = tt
  le-max_of key (x ∷ xs) =
      (omega arith, lift (max (key x) (max_of key xs)) xs (omega arith) (le-max_of key xs))
    where
      lift :
          (n : ℕ) (ys : List A)
          → max_of key xs ≤ n
          → All (λ y. key y ≤ max_of key xs) ys
          → All (λ y. key y ≤ n) ys
      lift n [] h a = tt
      lift n (y ∷ ys) h a = (omega arith, lift n ys h a.1)

  pub any-select_none :
      (q p : A → Bool) (xs : List A)
      → ((x : A) → p x ≡ true → q x ≡ false)
      → any q (select p xs) ≡ false
  unfolding select
  any-select_none q p [] h = refl
  any-select_none q p (x ∷ xs) h = ground (arith, h x, any-select_none q p xs h)

  -- A deletion by a test that holds of each row in question.
  pub any-delete_where_mem :
      (q p : A → Bool) (xs : List A)
      → All (λ x. q x ≡ true → p x ≡ true) xs
      → any q (delete_where p xs) ≡ false
  unfolding delete_where select
  any-delete_where_mem q p [] h = refl
  any-delete_where_mem q p (x ∷ xs) h = ground (arith, any-delete_where_mem q p xs h.1)

  -- Each row finds itself.
  pub All-any_self :
      (q : A → Bool) (r : A → A → Bool) (xs : List A)
      → ((x : A) → q x ≡ true → r x x ≡ true)
      → All (λ x. q x ≡ true → any (λ y. r y x) xs ≡ true) xs
  All-any_self q r [] h = tt
  All-any_self q r (x ∷ xs) h = (
    λ k. ground (arith, h x k),
    All-map (λ y. q y ≡ true → any (λ z. r z y) xs ≡ true)
        (λ y. q y ≡ true → any (λ z. r z y) (x ∷ xs) ≡ true) xs (λ y f k. ground (arith, f k))
        (All-any_self q r xs h),
  )

  pub delete_where-delete_where :
      (p q : A → Bool) (xs : List A)
      → delete_where q (delete_where p xs) ≡ delete_where (λ x. p x || q x) xs
  unfolding delete_where select
  delete_where-delete_where p q [] = refl
  delete_where-delete_where p q (x ∷ xs) = ground (arith, delete_where-delete_where p q xs)

  pub delete_where_idem :
      (p : A → Bool) (xs : List A) → delete_where p (delete_where p xs) ≡ delete_where p xs
  unfolding delete_where select
  delete_where_idem p [] = refl
  delete_where_idem p (x ∷ xs) = ground (arith, delete_where_idem p xs)

  pub All-delete_where {κ} :
      (P : A → Type κ) (p : A → Bool) (xs : List A) → All P xs → All P (delete_where p xs)
  unfolding delete_where
  All-delete_where P p xs = All-select P (λ x. not (p x)) xs

  -- A deletion does not change what a query reads that it shares no row with.
  pub select-delete_where_ne :
      (q p : A → Bool) (xs : List A)
      → ((x : A) → q x ≡ true → p x ≡ false)
      → select q (delete_where p xs) ≡ select q xs
  unfolding delete_where select
  select-delete_where_ne q p [] h = refl
  select-delete_where_ne q p (x ∷ xs) h = ground (arith, h x, select-delete_where_ne q p xs h)

  pub select-append_none :
      (q : A → Bool) (xs ys : List A)
      → All (λ y. q y ≡ false) ys
      → select q (xs ++ ys) ≡ select q xs
  unfolding select
  select-append_none q [] [] h = refl
  select-append_none q [] (y ∷ ys) h = ground (arith, select-append_none q [] ys h.1)
  select-append_none q (x ∷ xs) ys h = ground (arith, select-append_none q xs ys h)

  pub All-update_where {κ} :
      (P : A → Type κ) (p : A → Bool) (f : A → A) (xs : List A)
      → ((x : A) → P x → P (f x))
      → All P xs
      → All P (update_where p f xs)
  unfolding update_where
  All-update_where P p f [] g h = tt
  All-update_where P p f (x ∷ xs) g h = elim (Bool-cases (p x)) [
    | inl e ↦ rw e (g x h.0, All-update_where P p f xs g h.1)
    | inr e ↦ rw e (h.0, All-update_where P p f xs g h.1)
  ]

-- ===== src/Sql/Rows.antt =====
-- What a query reads after an insertion, an update or a deletion.
use mathlib.Core.Option
use session_scheduler.Base.{
  Bool, true, false, none, some, List, [], ◌∷◌, ◌++◌, any, ◌≡◌, refl, arith, Bool-cases, inl, inr,
  subst,
}
use session_scheduler.Sql.{select, delete_where, update_where, first_where}

module _ {ℓ} {A : Type ℓ} where
  pub first_where-append_hit :
      (q : A → Bool) (xs : List A) (y : A)
      → any q xs ≡ false
      → q y ≡ true
      → first_where q (xs ++ y ∷ []) ≡ some y
  unfolding first_where
  first_where-append_hit q [] y h k = ground arith
  first_where-append_hit q (x ∷ xs) y h k = ground (arith, first_where-append_hit q xs y)

  pub first_where-append_miss :
      (q : A → Bool) (xs : List A) (y : A)
      → q y ≡ false
      → first_where q (xs ++ y ∷ []) ≡ first_where q xs
  unfolding first_where
  first_where-append_miss q [] y k = ground arith
  first_where-append_miss q (x ∷ xs) y k = ground (arith, first_where-append_miss q xs y k)

  pub first_where-none : (q : A → Bool) (xs : List A) → any q xs ≡ false → first_where q xs ≡ none
  unfolding first_where
  first_where-none q [] h = refl
  first_where-none q (x ∷ xs) h = ground (arith, first_where-none q xs)

  pub first_where-some :
      (q : A → Bool) (xs : List A)
      → any q xs ≡ true
      → (x : A) × (first_where q xs ≡ some x) × (q x ≡ true)
  unfolding first_where
  first_where-some q [] h = absurd (ground arith)
  first_where-some q (x ∷ xs) h = elim (Bool-cases (q x)) [
    | inl e ↦ (x, rw e, e)
    | inr e ↦ let ih = first_where-some q xs (ground arith) in (ih.0, rw e ih.1, ih.2)
  ]

  -- The row read passes the test.
  pub first_where_passes :
      (q : A → Bool) (xs : List A) (x : A) → first_where q xs ≡ some x → q x ≡ true
  unfolding first_where
  first_where_passes q [] x h = absurd (ground arith)
  first_where_passes q (y ∷ ys) x h = elim (Bool-cases (q y)) [
    | inl e ↦ subst (λ z. q z ≡ true) (ground arith) e
    | inr e ↦ first_where_passes q ys x (ground arith)
  ]

  pub first_where-delete_where :
      (q p : A → Bool) (xs : List A)
      → ((x : A) → q x ≡ true → p x ≡ false)
      → first_where q (delete_where p xs) ≡ first_where q xs
  unfolding first_where delete_where select
  first_where-delete_where q p [] h = refl
  first_where-delete_where q p (x ∷ xs) h = ground (arith, h x, first_where-delete_where q p xs h)

  pub first_where-update_where :
      (p : A → Bool) (f : A → A) (xs : List A)
      → ((x : A) → p (f x) ≡ p x)
      → first_where p (update_where p f xs) ≡ Option.map f (first_where p xs)
  unfolding first_where update_where
  first_where-update_where p f [] h = refl
  first_where-update_where p f (x ∷ xs) h = ground (arith, h x, first_where-update_where p f xs h)

  pub first_where-update_where_ne :
      (q p : A → Bool) (f : A → A) (xs : List A)
      → ((x : A) → q x ≡ true → p x ≡ false)
      → ((x : A) → q (f x) ≡ q x)
      → first_where q (update_where p f xs) ≡ first_where q xs
  unfolding first_where update_where
  first_where-update_where_ne q p f [] h k = refl
  first_where-update_where_ne q p f (x ∷ xs) h k =
      ground (arith, h x, k x, first_where-update_where_ne q p f xs h k)

  pub any-update_where :
      (q p : A → Bool) (f : A → A) (xs : List A)
      → ((x : A) → q (f x) ≡ q x)
      → any q (update_where p f xs) ≡ any q xs
  unfolding update_where
  any-update_where q p f [] h = refl
  any-update_where q p f (x ∷ xs) h = ground (arith, h x, any-update_where q p f xs h)

  pub select-delete_where :
      (q p : A → Bool) (xs : List A)
      → ((x : A) → q x ≡ true → p x ≡ false)
      → select q (delete_where p xs) ≡ select q xs
  unfolding delete_where select
  select-delete_where q p [] h = refl
  select-delete_where q p (x ∷ xs) h = ground (arith, h x, select-delete_where q p xs h)

  pub select-append :
      (q : A → Bool) (xs ys : List A) → select q (xs ++ ys) ≡ select q xs ++ select q ys
  unfolding select
  select-append q [] ys = refl
  select-append q (x ∷ xs) ys = ground (arith, select-append q xs ys)

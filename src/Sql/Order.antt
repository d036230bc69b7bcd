-- ===== src/Sql/Order.antt =====
-- What `order by` gives: the same rows, none before one that it should follow.
use mathlib.Core.List.{Perm}
use mathlib.Core.List.Perm
use session_scheduler.Base.{Bool, true, ◌||◌, ◌≡◌, inl, inr, List, [], ◌∷◌, arith, Bool-cases}
use session_scheduler.Sql.{insert_ordered, order_by}

module _ {A : Type 0} (le : A → A → Bool) where
  -- Each row may stand before the next.
  abbrev pub IsOrdered : List A → Type 0
  IsOrdered [] = Unit
  IsOrdered (x ∷ []) = Unit
  IsOrdered (x ∷ y ∷ ys) = (le x y ≡ true) × IsOrdered (y ∷ ys)

  insert_ordered-perm : (x : A) (ys : List A) → Perm (insert_ordered le x ys) (x ∷ ys)
  unfolding insert_ordered
  insert_ordered-perm x [] = Perm.refl _
  insert_ordered-perm x (y ∷ ys) = elim (Bool-cases (le x y)) [
    | inl first ↦ rw first (Perm.refl _)
    | inr later ↦ rw later (Perm.trans (Perm.cons y (insert_ordered-perm x ys)) (Perm.swap x y ys))
  ]

  pub order_by-perm : (xs : List A) → Perm (order_by le xs) xs
  unfolding order_by
  order_by-perm [] = Perm.refl []
  order_by-perm (x ∷ xs) =
      Perm.trans (insert_ordered-perm x (order_by le xs)) (Perm.cons x (order_by-perm xs))

  abbrev IsBefore : A → List A → Type 0
  IsBefore x [] = Unit
  IsBefore x (y ∷ ys) = le x y ≡ true

  IsOrdered-cons : (x : A) (ys : List A) → IsBefore x ys → IsOrdered ys → IsOrdered (x ∷ ys)
  IsOrdered-cons x [] b h = tt
  IsOrdered-cons x (y ∷ ys) b h = (b, h)

  IsOrdered-inv : (x : A) (ys : List A) → IsOrdered (x ∷ ys) → IsBefore x ys × IsOrdered ys
  IsOrdered-inv x [] h = (tt, tt)
  IsOrdered-inv x (y ∷ ys) h = h

  insert_ordered-IsBefore :
      (y x : A) (ys : List A) → le y x ≡ true → IsBefore y ys → IsBefore y (insert_ordered le x ys)
  unfolding insert_ordered
  insert_ordered-IsBefore y x [] b h = b
  insert_ordered-IsBefore y x (z ∷ zs) b h = elim (Bool-cases (le x z)) [
    | inl first ↦ rw first b
    | inr later ↦ rw later h
  ]

  module _ (total : (x y : A) → (le x y || le y x) ≡ true) where
    insert_ordered-IsOrdered :
        (x : A) (ys : List A) → IsOrdered ys → IsOrdered (insert_ordered le x ys)
    unfolding insert_ordered
    insert_ordered-IsOrdered x [] h = tt
    insert_ordered-IsOrdered x (y ∷ ys) h =
        let (before, sorted) = IsOrdered-inv y ys h in
        elim (Bool-cases (le x y)) [
          | inl first ↦ rw first (first, h)
          | inr later ↦ rw later (
              IsOrdered-cons y (insert_ordered le x ys)
                (insert_ordered-IsBefore y x ys (ground (arith, total x y)) before)
                (insert_ordered-IsOrdered x ys sorted))
        ]

    pub order_by-IsOrdered : (xs : List A) → IsOrdered (order_by le xs)
    unfolding order_by
    order_by-IsOrdered [] = tt
    order_by-IsOrdered (x ∷ xs) =
        insert_ordered-IsOrdered x (order_by le xs) (order_by-IsOrdered xs)

-- ===== src/Sql.antt =====
-- SQL, as the event package sends it to SQLite, on a table as the list of its rows:
-- `select ... where`, `delete ... where`, `update ... set ... where`, `count(*)`, `max(...)`.
pub mod Laws
pub mod Rows
pub mod Order
use session_scheduler.Base.{
  ℕ, max, Bool, not, Option, none, some, List, [], ◌∷◌, map, length, if◌then◌else◌,
}

module _ {ℓ} {A : Type ℓ} where
  -- select * from xs where p
  unfoldable pub select : (A → Bool) → List A → List A
  select p [] = []
  select p (x ∷ xs) = let rest = select p xs in if p x then x ∷ rest else rest

  -- delete from xs where p
  unfoldable pub delete_where : (A → Bool) → List A → List A
  unfolding select
  delete_where p xs = select (λ x. not (p x)) xs

  -- update xs set f where p
  unfoldable pub update_where : (A → Bool) → (A → A) → List A → List A
  update_where p f xs = map (λ x. if p x then f x else x) xs

  -- select count(*) from xs where p
  unfoldable pub count_where : (A → Bool) → List A → ℕ
  unfolding select
  count_where p xs = length (select p xs)

  -- select * from xs where p, where one row is read
  unfoldable pub first_where : (A → Bool) → List A → Option A
  first_where p [] = none
  first_where p (x ∷ xs) = if p x then some x else first_where p xs

  -- select ifnull(max(key), 0) from xs
  unfoldable pub max_of : (A → ℕ) → List A → ℕ
  max_of key [] = 0
  max_of key (x ∷ xs) = max (key x) (max_of key xs)

  -- Insertion behind the rows that do not come after it.
  unfoldable pub insert_ordered : (A → A → Bool) → A → List A → List A
  insert_ordered le x [] = x ∷ []
  insert_ordered le x (y ∷ ys) =
      let rest = insert_ordered le x ys in if le x y then x ∷ y ∷ ys else y ∷ rest

  -- order by, where `le` compares the columns named
  unfoldable pub order_by : (A → A → Bool) → List A → List A
  unfolding insert_ordered
  order_by le [] = []
  order_by le (x ∷ xs) = insert_ordered le x (order_by le xs)

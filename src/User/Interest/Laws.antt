-- ===== src/User/Interest/Laws.antt =====
-- About SetInterest and GetInterest (event/user.go).
use session_scheduler.Base.{
  String, ℕ, ℤ, pos, negsuc, ◌≤◌, ◌≡◌, ◌≢◌, ◌⊎◌, inl, inr, refl, true, false, Option, some, none,
  List, [], ◌==◌, ==_iff, nat_key, string_key, arith, Bool-cases, any,
}
use session_scheduler.Sql.{delete_where}
use session_scheduler.Sql.Laws.{any-delete_where}
use session_scheduler.Sql.Rows.{
  first_where-append_hit, first_where-append_miss, first_where-none, first_where-some,
  first_where-delete_where, first_where-update_where, first_where-update_where_ne,
}
use session_scheduler.Tx.{Res, ok, err, Fault, get_row, exec, on_no_rows, or_retry}
use session_scheduler.Tx.Atomic.{start, then_return-ok}
use session_scheduler.Db.{User, Discussion, Interest, Db}
use session_scheduler.Db.Keys.{is_interest}
use session_scheduler.Db.Tables.{upsert_interest, delete_interest}
use session_scheduler.User.{interest_max}
use session_scheduler.User.Interest.{
  set_interest, store_interest, user_interest, get_interest_tx, name_interest_error,
}

-- GetInterest on a database, when the driver reports no fault.
abbrev pub interest_read : (uid did : String) → Db → Res ℕ
interest_read uid did db = (get_interest_tx uid did (start db [])).0

interest_read-some :
    (uid did : String) (n : ℕ) (db : Db)
    → user_interest uid did db ≡ some n
    → interest_read uid did db ≡ ok n
unfolding get_interest_tx exec on_no_rows or_retry get_row
interest_read-some uid did n db h = ground arith

interest_read-none :
    (uid did : String) (db : Db) → user_interest uid did db ≡ none → interest_read uid did db ≡ ok 0
unfolding get_interest_tx exec on_no_rows or_retry get_row
interest_read-none uid did db h = ground arith

is_interest_ne :
    (uid did uid' did' : String) (i : Interest)
    → (uid ≢ uid') ⊎ (did ≢ did')
    → is_interest uid' did' i ≡ true
    → is_interest uid did i ≡ false
is_interest_ne uid did uid' did' i h k = grind (
  arith,
  ==_iff i.user_id uid,
  ==_iff i.user_id uid',
  ==_iff i.discussion_id did,
  ==_iff i.discussion_id did',
)

-- The row that SetInterest writes.
abbrev pub written : (uid did : String) → ℕ → Interest
written uid did n = record { user_id = uid; discussion_id = did; interest = n }

module _ (uid did : String) (n : ℕ) (db db' : Db) where
  written_hit : is_interest uid did (written uid did n) ≡ true
  written_hit = ground (arith, ==_iff uid uid, ==_iff did did)

  pub upsert_self :
      upsert_interest (written uid did n) db ≡ ok (db', tt) → user_interest uid did db' ≡ some n
  unfolding upsert_interest user_interest
  upsert_self h = elim (Bool-cases (any (is_interest uid did) db.interest)) [
    | inl old ↦ ground (
      arith,
      first_where-some (is_interest uid did) db.interest old,
      first_where-update_where (is_interest uid did) (λ j. record j { interest = n }) db.interest
          (λ _. refl),
    )
    | inr new ↦ ground (
      arith,
      first_where-append_hit (is_interest uid did) db.interest (written uid did n) new written_hit,
    )
  ]

  pub upsert_rest :
      upsert_interest (written uid did n) db ≡ ok (db', tt)
      → db' ≡ record db { interest = db'.interest }
  unfolding upsert_interest
  upsert_rest h = ground arith

  pub upsert_other :
      (uid' did' : String)
      → (uid ≢ uid') ⊎ (did ≢ did')
      → upsert_interest (written uid did n) db ≡ ok (db', tt)
      → user_interest uid' did' db' ≡ user_interest uid' did' db
  unfolding upsert_interest user_interest
  upsert_other uid' did' ne h = elim (Bool-cases (any (is_interest uid did) db.interest)) [
    | inl old ↦ ground (
      arith,
      first_where-update_where_ne (is_interest uid' did') (is_interest uid did)
          (λ j. record j { interest = n }) db.interest (λ i. is_interest_ne uid did uid' did' i ne)
          (λ _. refl),
    )
    | inr new ↦
        let written_miss : is_interest uid' did' (written uid did n) ≡ false =
          grind (arith, ==_iff uid uid', ==_iff did did') in
        ground (
          arith,
          first_where-append_miss (is_interest uid' did') db.interest (written uid did n)
              written_miss,
        )
  ]

  delete_self :
      {k : ℕ}
      → delete_interest (is_interest uid did) db ≡ ok (db', k)
      → user_interest uid did db' ≡ none
  unfolding delete_interest user_interest
  delete_self h = ground (
    arith,
    first_where-none (is_interest uid did) (delete_where (is_interest uid did) db.interest)
        (any-delete_where (is_interest uid did) (is_interest uid did) db.interest (λ i p. p)),
  )

  delete_other :
      (uid' did' : String) {k : ℕ}
      → (uid ≢ uid') ⊎ (did ≢ did')
      → delete_interest (is_interest uid did) db ≡ ok (db', k)
      → user_interest uid' did' db' ≡ user_interest uid' did' db
  unfolding delete_interest user_interest
  delete_other uid' did' ne h = ground (
    arith,
    first_where-delete_where (is_interest uid' did') (is_interest uid did) db.interest
        (λ i. is_interest_ne uid did uid' did' i ne),
  )

  -- What a call of SetInterest with a value in range has done when it succeeds.
  abbrev pub IsStored : Type 0
  IsStored =
      (interest_read uid did db' ≡ ok n)
      × ((uid' did' : String)
          → (uid ≢ uid') ⊎ (did ≢ did')
          → user_interest uid' did' db' ≡ user_interest uid' did' db)
      × (db' ≡ record db { interest = db'.interest })

  store_interest_lem :
      (fs : List (Option Fault)) → store_interest uid did n fs db ≡ some (ok tt, db') → IsStored
  unfolding store_interest
  store_interest_lem fs h = elim (Bool-cases (n == 0)) [
    | inl zero_interest ↦
        let (k, p, q) =
          then_return-ok (delete_interest (is_interest uid did)) fs db db' (λ _. ok tt) err tt
            (λ e. ground arith) (ground arith) in
        (
          rw ((==_iff n 0).0 zero_interest) (interest_read-none uid did db' (delete_self q)),
          λ uid' did' ne. delete_other uid' did' ne q,
          unfold delete_interest in ground arith,
        )
    | inr some_interest ↦
        let (k, p, q) =
          then_return-ok (upsert_interest (written uid did n)) fs db db' ok name_interest_error tt
            (λ e. ground arith) (ground arith) in
        (
          interest_read-some uid did n db' (upsert_self q),
          λ uid' did' ne. upsert_other uid' did' ne q,
          upsert_rest q,
        )
  ]

-- When SetInterest succeeds, the value was between 0 and 100, GetInterest reads it from then on
-- (0 being stored as no row), no other pair of a user and a discussion reads otherwise than
-- before, and no other table has changed.
pub set_interest_reads_back :
    (user : User) (disc : Discussion) (v : ℤ) (fs : List (Option Fault)) (db db' : Db)
    → set_interest user disc v fs db ≡ some (ok tt, db')
    → (n : ℕ) × (v ≡ pos n) × (n ≤ interest_max) × IsStored user.user_id disc.discussion_id n db db'
unfolding set_interest
set_interest_reads_back user disc (negsuc n) fs db db' h = absurd (ground arith)
set_interest_reads_back user disc (pos n) fs db db' h = (
  n,
  refl,
  ground arith,
  store_interest_lem user.user_id disc.discussion_id n db db' fs (ground arith),
)

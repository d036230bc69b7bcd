-- ===== src/Location/Deletion.antt =====
-- About DeleteLocation (event/location.go), whose statement is not part of its transaction.
use session_scheduler.Base.{
  ℕ, suc, ◌≡◌, ◌⊎◌, inl, inr, refl, ap, sym, subst, ◌∙◌, Bool, true, false, ◌&&◌, Bool-cases,
  Option-cases, Option, none, some, List, [], ◌∷◌, any, ltb, if◌then◌else◌, arith,
}
use session_scheduler.Sql.{select, delete_where}
use session_scheduler.Sql.Laws.{delete_where_idem}
use session_scheduler.Errors.{message, wrapped}
use session_scheduler.Tx.{
  Res, ok, err, Fault, fault_error, Round, Next, stop, again, fail_or_again, min_tx_retries,
  max_tx_time,
}
use session_scheduler.Db.{Db}
use session_scheduler.Db.Keys.{is_location, location_referenced}
use session_scheduler.Db.Tables.{delete_locations}
use session_scheduler.Location.{
  deleted, delete_location_statement, after_delete, delete_location_round, delete_location_from,
  delete_location,
}

-- The database without a location.
abbrev pub without_location : ℕ → Db → Db
without_location lid db = record db { locations = delete_where (is_location lid) db.locations }

abbrev pub EitherWay : ℕ → Db → Db → Type 0
EitherWay lid db d = (d ≡ db) ⊎ (d ≡ without_location lid db)

deleted-EitherWay :
    (lid : ℕ) (db : Db) → EitherWay lid db (deleted (delete_locations (is_location lid) db) db).1
unfolding delete_locations
deleted-EitherWay lid db =
    elim (Bool-cases (any (location_referenced db) (select (is_location lid) db.locations))) [
      | inl e ↦ inl (rw e refl)
      | inr e ↦ inr (rw e refl)
    ]

statement-EitherWay :
    (lid : ℕ) (fs : List (Option Fault)) (db : Db)
    → EitherWay lid db (delete_location_statement lid fs db).1
unfolding delete_location_statement
statement-EitherWay lid [] db = deleted-EitherWay lid db
statement-EitherWay lid (none ∷ fs) db = deleted-EitherWay lid db
statement-EitherWay lid (some f ∷ fs) db = inl refl

-- Where a round stops, it stops with the database that it leaves.
after_delete-stop :
    (r : Round) (x : Res (Unit {0}) × Db) (y : Res (Unit {0}) × Db)
    → (after_delete r x).0 ≡ stop y
    → y.1 ≡ (after_delete r x).1
after_delete-stop r (err e, d) y h = ground arith
after_delete-stop r (ok u, d) y h = ground (arith, Option-cases r.commit)

after_delete-db : (r : Round) (x : Res (Unit {0}) × Db) → (after_delete r x).1 ≡ x.1
after_delete-db r (err e, d) = refl
after_delete-db r (ok u, d) = ground (arith, Option-cases r.commit)

module _ (lid : ℕ) where
  round-EitherWay :
      (n : ℕ) (r : Round) (db : Db) → EitherWay lid db (delete_location_round lid n r db).1
  unfolding delete_location_round
  round-EitherWay n r db = elim (Bool-cases (ltb min_tx_retries n && ltb max_tx_time r.elapsed)) [
    | inl e ↦ inl (rw e refl)
    | inr e ↦ rw e (begun r.begin)
  ]
    where
      begun :
          (b : Option Fault)
          → EitherWay lid db
              (elim b as (λ _. Next (Res (Unit {0}) × Db) × Db) [
                | none ↦ after_delete r (delete_location_statement lid r.faults db)
                | some f ↦ (
                  fail_or_again db (fault_error f) (wrapped "Starting transaction" (fault_error f)),
                  db,
                )
              ]).1
      begun none =
          subst (EitherWay lid db)
            (sym (after_delete-db r (delete_location_statement lid r.faults db)))
            (statement-EitherWay lid r.faults db)
      begun (some f) = inl refl

  round-stop :
      (n : ℕ) (r : Round) (db : Db) (y : Res (Unit {0}) × Db)
      → (delete_location_round lid n r db).0 ≡ stop y
      → y.1 ≡ (delete_location_round lid n r db).1
  unfolding delete_location_round
  round-stop n r db y h = go (ltb min_tx_retries n && ltb max_tx_time r.elapsed) r.begin h
    where
      shape : Bool → Option Fault → Next (Res (Unit {0}) × Db) × Db
      shape late b =
          if late
          then (stop (err (message "Internal error: Transaction taking too long"), db), db)
          else elim b [
            | none ↦ after_delete r (delete_location_statement lid r.faults db)
            | some f ↦ (
              fail_or_again db (fault_error f) (wrapped "Starting transaction" (fault_error f)),
              db,
            )
          ]

      go : (late : Bool) (b : Option Fault) → (shape late b).0 ≡ stop y → y.1 ≡ (shape late b).1
      go true b k = ground arith
      go false none k = after_delete-stop r (delete_location_statement lid r.faults db) y k
      go false (some f) k = ground arith

  EitherWay-again : (db d d' : Db) → EitherWay lid db d → EitherWay lid d d' → EitherWay lid db d'
  EitherWay-again db d d' (inl e) h = subst (λ x. EitherWay lid x d') e h
  EitherWay-again db d d' (inr e) (inl e') = inr (e' ∙ e)
  EitherWay-again db d d' (inr e) (inr e') = inr (
      e'
      ∙ ap (without_location lid) e
      ∙ ap (λ ls. record db { locations = ls }) (delete_where_idem (is_location lid) db.locations))

  delete_location_from-EitherWay :
      (n : ℕ) (rs : List Round) (db : Db) (y : Res (Unit {0}) × Db)
      → delete_location_from n lid rs db ≡ some y
      → EitherWay lid db y.1
  unfolding delete_location_from
  delete_location_from-EitherWay n [] db y h = absurd (ground arith)
  delete_location_from-EitherWay n (r ∷ rs) db y h =
      go (delete_location_round lid (suc n) r db) refl
        (λ d. delete_location_from-EitherWay (suc n) rs d y) h
    where
      go :
          (x : Next (Res (Unit {0}) × Db) × Db)
          → delete_location_round lid (suc n) r db ≡ x
          → ((d : Db) → delete_location_from (suc n) lid rs d ≡ some y → EitherWay lid d y.1)
          → elim x.0 as (λ _. Option (Res (Unit {0}) × Db)) [
            | stop z ↦ some z
            | again ↦ delete_location_from (suc n) lid rs x.1
          ]
            ≡ some y
          → EitherWay lid db y.1
      go (stop z, d) p ih k =
          let e : z ≡ y = ground arith in
          subst (EitherWay lid db) (sym (round-stop (suc n) r db y (ap (λ x. x.0) p ∙ ap stop e)))
            (round-EitherWay (suc n) r db)
      go (again, d) p ih k =
          EitherWay-again db d y.1
            (subst (λ x. EitherWay lid db x.1) p (round-EitherWay (suc n) r db)) (ih d k)

-- However DeleteLocation ends, success or error, and whatever the driver does in however many
-- rounds, the database is the one that the call found, or that one without the location.
pub delete_location-EitherWay :
    (lid : ℕ) (rs : List Round) (db : Db) (y : Res (Unit {0}) × Db)
    → delete_location lid rs db ≡ some y
    → EitherWay lid db y.1
unfolding delete_location
delete_location-EitherWay lid rs db y h = delete_location_from-EitherWay lid 0 rs db y h

-- ===== src/Location/Laws.antt =====
-- About NewLocation (event/location.go).
use session_scheduler.Base.{
  ℕ, suc, ◌≤◌, ◌<◌, ◌≡◌, refl, ap, sym, ◌∙◌, false, Option, none, some, List, [], ◌∷◌, ◌++◌, All,
  ◌==◌, nat_key, string_key, arith,
}
use session_scheduler.Sql.{max_of}
use session_scheduler.Sql.Laws.{le-max_of}
use session_scheduler.Errors.{Error}
use session_scheduler.Tx.{ok, err, Conn, Round, tx_loop}
use session_scheduler.Tx.Atomic.{start}
use session_scheduler.Tx.Run.{query->>=-ran, try->>=-ran, pure-ran}
use session_scheduler.Tx.Steady.{
  Steady, Steady-pure, Steady-bind, Steady-or_retry, Steady-exec, tx_loop_ran,
}
use session_scheduler.Db.{Location, Db}
use session_scheduler.Db.Tables.{insert_location}
use session_scheduler.Location.{check_location_params, new_location_tx, new_location}

Steady-new_location_tx : (l : Location) → Steady (new_location_tx l)
unfolding new_location_tx
Steady-new_location_tx l =
    Steady-bind _ _ (Steady-or_retry _ _ (Steady-exec _))
      λ n. Steady-bind _ _ (Steady-or_retry _ _ (Steady-exec _)) (λ u. Steady-pure _)

abbrev pub max_location_id : Db → ℕ
max_location_id db = max_of (λ (m : Location). m.location_id) db.locations

insert_location-ran :
    (l : Location) (db db' : Db) (u : Unit {0})
    → insert_location l db ≡ ok (db', u)
    → db' ≡ record db { locations = db.locations ++ l ∷ [] }
unfolding insert_location
insert_location-ran l db db' u h = ground arith

check_location_params_inv :
    (l : Location)
    → check_location_params l ≡ none
    → ((l.location_name == "") ≡ false) × (1 ≤ l.capacity)
unfolding check_location_params
check_location_params_inv l h = ground arith

new_location_tx-ran :
    (l : Location) (lid : ℕ) (db db' : Db)
    → new_location_tx l (start db []) ≡ (ok lid, start db' [])
    → (lid ≡ suc (max_location_id db))
      × (db' ≡ record db {
        locations = db.locations ++ record l { location_id = suc (max_location_id db) } ∷ [];
      })
unfolding new_location_tx
new_location_tx-ran l lid db db' h =
    let (u, db₁, p, rest) = try->>=-ran _ _ _ db (query->>=-ran _ _ _ db h) in
    let (id, same) = pure-ran (suc (max_location_id db)) lid (start db₁ []) (start db' []) rest in
    (
      sym id,
      sym (ap (λ (c : Conn Db). c.db) same)
          ∙ insert_location-ran (record l { location_id = suc (max_location_id db) }) db db₁ u p,
    )

-- When NewLocation succeeds, the location has a name and room for at least one, it is added to the
-- table with the identifier returned, which is above every identifier in use, and nothing else
-- changes.
pub new_location_adds :
    (l : Location) (lid : ℕ) (rs : List Round) (db db' : Db)
    → new_location l rs db ≡ some (ok lid, db')
    → ((l.location_name == "") ≡ false)
      × (1 ≤ l.capacity)
      × All (λ m. m.location_id < lid) db.locations
      × (db' ≡ record db { locations = db.locations ++ record l { location_id = lid } ∷ [] })
unfolding new_location
new_location_adds l lid rs db db' h = go (check_location_params l) refl h
  where
    lift :
        (n : ℕ) (ms : List Location)
        → All (λ m. m.location_id ≤ n) ms
        → All (λ m. m.location_id < suc n) ms
    lift n [] a = tt
    lift n (m ∷ ms) a = (omega (arith, a.0), lift n ms a.1)

    go :
        (o : Option Error)
        → check_location_params l ≡ o
        → elim o [ some e ↦ some (err e, db) | none ↦ tx_loop (new_location_tx l) rs db ]
          ≡ some (ok lid, db')
        → ((l.location_name == "") ≡ false)
          × (1 ≤ l.capacity)
          × All (λ m. m.location_id < lid) db.locations
          × (db' ≡ record db { locations = db.locations ++ record l { location_id = lid } ∷ [] })
    go (some e) p k = absurd (ground arith)
    go none p k =
        let (named, room) = check_location_params_inv l p in
        let (id, only) =
          new_location_tx-ran l lid db db'
            (tx_loop_ran _ (Steady-new_location_tx l) rs db db' lid k) in
        (
          named,
          room,
          rw id (
              lift (max_location_id db) db.locations
                (le-max_of (λ (m : Location). m.location_id) db.locations)),
          rw id only,
        )

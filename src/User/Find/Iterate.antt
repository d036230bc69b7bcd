-- ===== src/User/Find/Iterate.antt =====
-- About UserIterate (event/user.go).
use mathlib.Core.List.{Perm}
use session_scheduler.Base.{
  ◌||◌, ==_iff, ℕ, suc, ◌+◌, ◌≡◌, refl, ap, sym, ◌∙◌, Bool-cases, inl, inr, Option, none, some,
  List, [], ◌∷◌, arith, length, Bool, nat_key, ◌==◌, if◌then◌else◌, true, false,
}
use session_scheduler.Sql.{order_by}
use session_scheduler.Sql.Order.{IsOrdered, order_by-perm, order_by-IsOrdered}
use session_scheduler.Errors.{codes, Error, should_retry, message}
use session_scheduler.Tx.{Fault, fault_error}
use session_scheduler.Db.{User, Db}
use session_scheduler.Db.Keys.{codes_le, text_le}
use session_scheduler.User.Find.{
  users_in_order, Scan, Callback, scanned, process, rows_err, AfterScan, leave, rescan, after_rows,
  scan_rows, user_iterate,
}

codes_le-total : (xs ys : List ℕ) → (codes_le xs ys || codes_le ys xs) ≡ true
unfolding codes_le
codes_le-total [] ys = refl
codes_le-total (a ∷ xs) [] = refl
codes_le-total (a ∷ xs) (b ∷ ys) = grind (arith, codes_le-total xs ys, ==_iff a b, ==_iff b a)

abbrev pub by_id : User → User → Bool
by_id u v = text_le u.user_id v.user_id

by_id-total : (u v : User) → (by_id u v || by_id v u) ≡ true
unfolding text_le
by_id-total u v = codes_le-total (codes u.user_id) (codes v.user_id)

module _ {S : Type 0} (f : Callback S) where
  -- The state after a call of the callback on each user, in order.
  abbrev pub visit_all : List User → S → S
  visit_all [] s = s
  visit_all (u ∷ us) s = visit_all us (f u s).1

  process_all :
      (us : List User) (n m : ℕ) (s s' : S)
      → process f us n s ≡ (none, (s', m))
      → (s' ≡ visit_all us s) × (m ≡ n + length us)
  unfolding process
  process_all [] n m s s' h = (ground arith, ground arith)
  process_all (u ∷ us) n m s s' h = go (f u s) refl h (λ t. process_all us (suc n) m t s')
    where
      go :
          (x : Option Error × S)
          → f u s ≡ x
          → elim x.0 [ none ↦ process f us (suc n) x.1 | some e ↦ (some e, (x.1, n)) ]
            ≡ (none, (s', m))
          → ((t : S)
              → process f us (suc n) t ≡ (none, (s', m))
              → (s' ≡ visit_all us t) × (m ≡ suc n + length us))
          → (s' ≡ visit_all (u ∷ us) s) × (m ≡ n + length (u ∷ us))
      go (none, t) p k ih =
          let (seen, counted) = ih t k in
          (seen ∙ ap (visit_all us) (ap (λ x. x.1) (sym p)), omega (arith, counted))
      go (some e, t) p k ih = absurd (ground arith)

  -- What one turn of the loop leaves.
  abbrev ScanOutcome : Db → S → AfterScan × S → Type 0
  ScanOutcome db s (leave none, s') = s' ≡ visit_all (users_in_order db) s
  ScanOutcome db s (leave (some e), s') = Unit
  ScanOutcome db s (rescan, s') = s' ≡ s

  rows-ScanOutcome :
      (db : Db) (s : S) (stops : Option (ℕ × Fault)) (x : Option Error × (S × ℕ))
      → process f (scanned stops (users_in_order db)) 0 s ≡ x
      → ScanOutcome db s (after_rows stops x)
  unfolding rows_err
  rows-ScanOutcome db s stops (some e, (s', n)) h = tt
  rows-ScanOutcome db s none (none, (s', n)) h = (process_all (users_in_order db) 0 n s s' h).0
  rows-ScanOutcome db s (some (m, e)) (none, (s', n)) h =
      go (scanned (some (m, e)) (users_in_order db)) n (process_all _ 0 n s s' h)
        (should_retry (fault_error e))
    where
      go :
          (us : List User) (n : ℕ)
          → (s' ≡ visit_all us s) × (n ≡ 0 + length us)
          → (retry : Bool)
          → ScanOutcome db s (
            if retry
                then if n == 0
                  then rescan
                  else leave (some (message "INTERNAL ERROR: Got transaction retry error"))
                else leave (some (fault_error e)),
            s',
          )
      go us n h false = tt
      go [] n h true = rw h.1 h.0
      go (u ∷ us) n h true = let more : (n == 0) ≡ false = ground (arith, h.1) in rw more tt

  scan_rows-ScanOutcome : (scan : Scan) (db : Db) (s : S) → ScanOutcome db s (scan_rows f scan db s)
  unfolding scan_rows
  scan_rows-ScanOutcome scan db s = go scan.queryx
    where
      go :
          (q : Option Fault)
          → ScanOutcome db s (elim q [
            | some e ↦
                (if should_retry (fault_error e) then rescan else leave (some (fault_error e)), s)
            | none ↦ after_rows scan.stops (process f (scanned scan.stops (users_in_order db)) 0 s)
          ])
      go none = rows-ScanOutcome db s scan.stops _ refl
      go (some e) = elim (Bool-cases (should_retry (fault_error e))) [
        | inl retry ↦ rw retry refl
        | inr broken ↦ rw broken tt
      ]

  user_iterate_visits :
      (scans : List Scan) (db : Db) (s s' : S)
      → user_iterate f scans db s ≡ some (none, s')
      → s' ≡ visit_all (users_in_order db) s
  unfolding user_iterate
  user_iterate_visits [] db s s' h = absurd (ground arith)
  user_iterate_visits (scan ∷ scans) db s s' h =
      go (scan_rows f scan db s) (scan_rows-ScanOutcome scan db s) h
        (λ t. user_iterate_visits scans db t s')
    where
      go :
          (x : AfterScan × S)
          → ScanOutcome db s x
          → ◌≡◌ {A = Option (Option Error × S)}
              (elim x.0 [ leave e ↦ some (e, x.1) | rescan ↦ user_iterate f scans db x.1 ])
              (some (none, s'))
          → ((t : S)
              → user_iterate f scans db t ≡ some (none, s')
              → s' ≡ visit_all (users_in_order db) t)
          → s' ≡ visit_all (users_in_order db) s
      go (leave none, t) p h ih = ground (arith, p)
      go (leave (some e), t) p h ih = absurd (ground arith)
      go (rescan, t) p h ih = ih t h ∙ ap (visit_all (users_in_order db)) p

  -- When UserIterate reports no error, however often its query was run, its callback has been
  -- called on every user of the table exactly once, in the order of their identifiers.
  pub user_iterate_visits_all :
      (scans : List Scan) (db : Db) (s s' : S)
      → user_iterate f scans db s ≡ some (none, s')
      → (us : List User) × Perm us db.users × IsOrdered by_id us × (s' ≡ visit_all us s)
  unfolding users_in_order
  user_iterate_visits_all scans db s s' h = (
    order_by by_id db.users,
    order_by-perm by_id db.users,
    order_by-IsOrdered by_id by_id-total db.users,
    user_iterate_visits scans db s s' h,
  )

-- ===== src/Web/Admin/Actions/Laws.antt =====
-- About who acts by HandleAdminAction and HandleTestAction (handle_admin.go).
use session_scheduler.Base.{
  String, Bool, true, ◌≡◌, ◌⊎◌, inl, inr, refl, subst, Option, none, some, arith, Bool-cases,
}
use session_scheduler.Tx.{Fault}
use session_scheduler.Db.{User}
use session_scheduler.Schedule.Heuristic.{SliceSort}
use session_scheduler.Web.{
  World, Request, Driver, Response, panics, silent, request_user, Requested, requested,
  user_find_failed, is_admin,
}
use session_scheduler.Web.Requests.{
  IsSignedIn, request_user-IsSignedIn, StoresAreKept, request_user-StoresAreKept,
}
use session_scheduler.Web.Admin.{for_admin, test_action, handle_test_action}
use session_scheduler.Web.Admin.Actions.{AdminFaults, admin_action, handle_admin_action}

-- An action, done for a signed-in administrator on what the request found.
abbrev pub IsDoneForAdmin :
    (World → Option (Response × World)) → Driver → Request → Response → (w w' : World) → Type 0
IsDoneForAdmin act dr req resp w w' =
    (cur : User) × IsSignedIn dr req cur w × (cur.is_admin ≡ true) × (act w ≡ some (resp, w'))

module _ (act : World → Option (Response × World)) (req : Request) (dr : Driver) (resp : Response)
    (w w' : World) where
  stays :
      (w₁ : World) (who : Requested) (answer : Response)
      → request_user req dr w ≡ some (who, w₁)
      → ◌≡◌ {A = Option (Response × World)} (some (answer, w₁)) (some (resp, w'))
      → StoresAreKept w w' ⊎ IsDoneForAdmin act dr req resp w w'
  stays w₁ who answer p k =
      let there : w₁ ≡ w' = ground arith in
      inl (subst (StoresAreKept w) there (request_user-StoresAreKept req dr w w₁ who p))

  for_admin-EitherWay :
      for_admin act (request_user req dr w) ≡ some (resp, w')
      → StoresAreKept w w' ⊎ IsDoneForAdmin act dr req resp w w'
  unfolding is_admin
  for_admin-EitherWay h = go (request_user req dr w) refl h
    where
      go :
          (o : Option (Requested × World))
          → request_user req dr w ≡ o
          → for_admin act o ≡ some (resp, w')
          → StoresAreKept w w' ⊎ IsDoneForAdmin act dr req resp w w'
      go none p k = absurd (ground arith)
      go (some (user_find_failed e, w₁)) p k = stays w₁ (user_find_failed e) (panics e) p k
      go (some (requested none, w₁)) p k = stays w₁ (requested none) silent p k
      go (some (requested (some cur), w₁)) p k = elim (Bool-cases cur.is_admin) [
        | inr plain ↦ stays w₁ (requested (some cur)) silent p (ground arith)
        | inl admin ↦
            let (signed_in, _, same) = request_user-IsSignedIn req dr w w₁ cur p in
            inr (cur, signed_in, admin, subst (λ x. act x ≡ some (resp, w')) same (ground arith))
      ]

-- However HandleAdminAction and HandleTestAction end, either nothing has changed in the event
-- database and the configuration, or the request carries the live session of a user whose row says
-- administrator, and the call has done what the action does on the stores that it found.
pub administrators_act :
    (text_le : String → String → Bool) (sorter : SliceSort) (fs : AdminFaults)
    (read write : Option Fault) (req : Request) (dr : Driver) (resp : Response) (w w' : World)
    → (handle_admin_action text_le sorter fs req dr w ≡ some (resp, w'))
      ⊎ (handle_test_action read write req dr w ≡ some (resp, w'))
    → StoresAreKept w w'
      ⊎ (IsDoneForAdmin (admin_action text_le sorter fs req dr) dr req resp w w'
          ⊎ IsDoneForAdmin (λ v. some (test_action read write req v)) dr req resp w w')
unfolding handle_admin_action handle_test_action
administrators_act text_le sorter fs read write req dr resp w w' (inl h) =
    elim (for_admin-EitherWay (admin_action text_le sorter fs req dr) req dr resp w w' h) [
      | inl kept ↦ inl kept
      | inr done ↦ inr (inl done)
    ]
administrators_act text_le sorter fs read write req dr resp w w' (inr h) =
    elim (for_admin-EitherWay (λ v. some (test_action read write req v)) req dr resp w w' h) [
      | inl kept ↦ inl kept
      | inr done ↦ inr (inr done)
    ]

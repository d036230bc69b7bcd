-- ===== src/Web/Create/Laws.antt =====
-- About who creates a discussion by HandleDiscussionCreate (handle_discussion.go), and which.
use mathlib.Core.Option
use session_scheduler.Base.{
  String, true, false, not, ◌||◌, ◌≡◌, ◌⊎◌, inl, inr, refl, ap, sym, subst, ◌∙◌, Option, none, some,
  List, string_key, arith, Bool-cases, some_inj,
}
use session_scheduler.Errors.{Error}
use session_scheduler.Tx.{Res, ok, err, Round}
use session_scheduler.Tx.Atomic.{tx_loop_atomic}
use session_scheduler.Db.{User, Discussion, Db}
use session_scheduler.Keyvalue.{get_bool_def}
use session_scheduler.Discussion.Create.{
  check_discussion_params, new_discussion, new_discussion_tx, user_is_verified,
}
use session_scheduler.Discussion.Create.Laws.{IsCreated, new_discussion_creates}
use session_scheduler.Web.{
  World, Request, Driver, Response, panics, request_user, Requested, requested, user_find_failed,
  is_verified, form_value, after_change, flag_require_verification,
}
use session_scheduler.Web.Requests.{
  IsSignedIn, request_user-IsSignedIn, StoresAreKept, request_user-StoresAreKept,
}
use session_scheduler.Web.Create.{
  must_verify, form_discussion, answer_created, create_for, handle_discussion_create,
}

-- What the form asks for, in the owner's name.
abbrev pub asked_for : Request → User → Discussion
asked_for req owner = record {
  discussion_id = "";
  owner = owner.user_id;
  title = form_value req "title";
  description = form_value req "description";
  approved_title = "";
  approved_description = "";
  is_public = false;
}

-- The discussion that somebody signed in has created.
pub record IsOffered (did : String) (req : Request) (dr : Driver) (resp : Response) (w w' : World)
    : Type 0 where
  pub owner : User
  pub discussion : Discussion
  pub signed_in : IsSignedIn dr req owner w
  pub created : IsCreated did (asked_for req owner) discussion w.event w'.event
  pub public : discussion.is_public ≡ owner.is_verified
  pub allowed :
      (not (get_bool_def dr.flag flag_require_verification w.kvs)
        || owner.is_verified
        || owner.is_admin)
      ≡ true
  pub configuration : w'.kvs ≡ w.kvs
  pub sessions : w'.sessions ≡ w.sessions
  pub answer : resp ≡ answer_created (ok discussion)

new_discussion_fails :
    (did : String) (disc : Discussion) (rs : List Round) (db db' : Db) (e : Error)
    → new_discussion did disc rs db ≡ some (err e, db')
    → db' ≡ db
unfolding new_discussion
new_discussion_fails did disc rs db db' e h = go (check_discussion_params disc) refl
  where
    go : (o : Option Error) → check_discussion_params disc ≡ o → db' ≡ db
    go (some f) p = ground arith
    go none p = tx_loop_atomic (new_discussion_tx did disc) rs db (err e, db') (ground arith)

module _ (did : String) (req : Request) (dr : Driver) (resp : Response) (w w' : World) where
  made-EitherWay :
      (owner : User)
      → request_user req dr w ≡ some (requested (some owner), w)
      → must_verify dr w (some owner) ≡ false
      → after_change w
          (new_discussion did (form_discussion req owner) dr.change w.event)
          answer_created
        ≡ some (resp, w')
      → StoresAreKept w w' ⊎ IsOffered did req dr resp w w'
  unfolding after_change must_verify is_verified user_is_verified
  made-EitherWay owner asked free h =
      go (new_discussion did (form_discussion req owner) dr.change w.event) refl h
    where
      go :
          (o : Option (Res Discussion × Db))
          → new_discussion did (form_discussion req owner) dr.change w.event ≡ o
          → after_change w o answer_created ≡ some (resp, w')
          → StoresAreKept w w' ⊎ IsOffered did req dr resp w w'
      go none p k = absurd (ground arith)
      go (some (err e, db)) p k =
          let there : record w { event = db } ≡ w' = ground arith in
          let same =
            new_discussion_fails did (form_discussion req owner) dr.change w.event db e p in
          inl (sym (ap World.event there) ∙ same, sym (ap World.kvs there))
      go (some (ok d, db)) p k =
          let there : record w { event = db } ≡ w' = ground arith in
          let (_, created) =
            new_discussion_creates did (form_discussion req owner) d dr.change w.event db p in
          let (signed_in, _, _) = request_user-IsSignedIn req dr w w owner asked in
          let (_, _, _, _, row) = signed_in in
          inr (record {
            owner = owner;
            discussion = d;
            signed_in = signed_in;
            created =
                subst (IsCreated did (asked_for req owner) d w.event) (ap World.event there)
                  created;
            public =
                some_inj (sym created.verified ∙ ap (Option.map (λ (u : User). u.is_verified)) row);
            allowed = ground arith;
            configuration = sym (ap World.kvs there);
            sessions = sym (ap World.sessions there);
            answer = ground arith;
          })

  asked-EitherWay :
      (w₁ : World) (owner : User)
      → request_user req dr w ≡ some (requested (some owner), w₁)
      → create_for did req dr (some (requested (some owner), w₁)) ≡ some (resp, w')
      → StoresAreKept w w' ⊎ IsOffered did req dr resp w w'
  unfolding create_for
  asked-EitherWay w₁ owner asked h =
      let (_, _, same) = request_user-IsSignedIn req dr w w₁ owner asked in
      let at_w : request_user req dr w ≡ some (requested (some owner), w) =
        subst (λ x. request_user req dr w ≡ some (requested (some owner), x)) same asked in
      let h' : create_for did req dr (some (requested (some owner), w)) ≡ some (resp, w') =
        subst (λ x. create_for did req dr (some (requested (some owner), x)) ≡ some (resp, w')) same
          h in
      elim (Bool-cases (must_verify dr w (some owner))) [
        | inl led_away ↦
            let there : w ≡ w' = ground arith in
            inl (sym (ap World.event there), sym (ap World.kvs there))
        | inr free ↦ made-EitherWay owner at_w free (ground arith)
      ]

  -- However HandleDiscussionCreate ends, either it has changed nothing in the event database and
  -- the configuration, or somebody signed in, verified or an administrator if the configuration
  -- requires verification, has created exactly one discussion: with the form's texts, the user as its owner, and public
  -- exactly if the user is verified; the configuration and the sessions are then as before.
  pub handle_discussion_create-EitherWay :
      handle_discussion_create did req dr w ≡ some (resp, w')
      → StoresAreKept w w' ⊎ IsOffered did req dr resp w w'
  unfolding handle_discussion_create create_for
  handle_discussion_create-EitherWay h = go (request_user req dr w) refl h
    where
      stays :
          (w₁ : World) (who : Requested) (answer : Response)
          → request_user req dr w ≡ some (who, w₁)
          → ◌≡◌ {A = Option (Response × World)} (some (answer, w₁)) (some (resp, w'))
          → StoresAreKept w w' ⊎ IsOffered did req dr resp w w'
      stays w₁ who answer p k =
          let there : w₁ ≡ w' = ground arith in
          inl (subst (StoresAreKept w) there (request_user-StoresAreKept req dr w w₁ who p))

      go :
          (o : Option (Requested × World))
          → request_user req dr w ≡ o
          → create_for did req dr o ≡ some (resp, w')
          → StoresAreKept w w' ⊎ IsOffered did req dr resp w w'
      go none p k = absurd (ground arith)
      go (some (user_find_failed e, w₁)) p k = stays w₁ (user_find_failed e) (panics e) p k
      go (some (requested none, w₁)) p k = stays w₁ (requested none) _ p k
      go (some (requested (some owner), w₁)) p k = asked-EitherWay w₁ owner p k

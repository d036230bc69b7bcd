-- ===== src/Web/Uid/Laws.antt =====
-- About HandleUidPost (handle_discussion.go).
use session_scheduler.Base.{
  ℤ, pos, negsuc, String, Bool, true, false, not, ◌&&◌, ◌≡◌, ◌≢◌, inl, inr, refl, subst, Option,
  none, some, ◌==◌, string_key, arith, Bool-cases,
}
use session_scheduler.Errors.{is_validation_error}
use session_scheduler.Tx.{Res, ok, err}
use session_scheduler.Db.{User, Discussion, Db}
use session_scheduler.Keyvalue.{get_bool_def, get, value_of}
use session_scheduler.User.{Bcrypt}
use session_scheduler.User.Interest.{set_interest}
use session_scheduler.User.Update.{set_verified}
use session_scheduler.User.Find.{may_edit_user, may_edit_discussion, admin_username}
use session_scheduler.Discussion.Delete.{delete_discussion}
use session_scheduler.Discussion.Update.{discussion_update}
use session_scheduler.Web.{
  World, Request, Driver, Response, redirect, silent, form_value, after_change,
  flag_require_verification, is_verified, verification_code,
}
use session_scheduler.Web.Form.{atoi, parse_profile, set_location}
use session_scheduler.Web.Uid.{
  post_interest, use_interest, redirect_back, discussion_next, post_slots, after_update,
  post_discussion_edit, post_discussion_delete, post_public, discussion_action, answer_edit,
  post_user_edit, post_verified, post_verify, post_user_delete, user_action,
}
use session_scheduler.Web.Uid.Keeps.{
  IsSpared, IsSpared-refl, IsSpared-trans, user_update-IsSpared, set_verified-IsSpared,
  set_interest-IsSpared, discussion_update-IsSpared, delete_discussion-IsSpared,
}

-- The same of the event database, and the configuration as it was.
abbrev pub WorldIsSpared : (other did : String) → World → World → Type 0
WorldIsSpared other did w w' = IsSpared other did w.event w'.event × (w'.kvs ≡ w.kvs)

module _ (other did : String) where
  pub stays :
      (w w' : World) (r r' : Response)
      → ◌≡◌ {A = Option (Response × World)} (some (r, w)) (some (r', w'))
      → WorldIsSpared other did w w'
  stays w w' r r' h =
      let same : w ≡ w' = ground arith in
      subst (WorldIsSpared other did w) same (IsSpared-refl other did w.event, refl)

  changes :
      {A : Type 0} (w w' : World) (o : Option (Res A × Db)) (answer : Res A → Response)
      (resp : Response)
      → ((r : Res A) (db : Db) → o ≡ some (r, db) → IsSpared other did w.event db)
      → after_change w o answer ≡ some (resp, w')
      → WorldIsSpared other did w w'
  unfolding after_change
  changes w w' none answer resp spared h = absurd (ground arith)
  changes w w' (some (r, db)) answer resp spared h =
      let same : record w { event = db } ≡ w' = ground arith in
      subst (WorldIsSpared other did w) same (spared r db refl, refl)

  module _ (cur : User) (plain : cur.is_admin ≡ false) (req : Request) (dr : Driver)
      (resp : Response) where
    post_interest-spares :
        (d : Discussion) (w w' : World)
        → post_interest cur d req dr w ≡ some (resp, w')
        → WorldIsSpared other did w w'
    unfolding post_interest
    post_interest-spares d w w' h = elim (Bool-cases (cur.username == admin_username)) [
      | inl root ↦ stays w w' silent resp (ground arith)
      | inr user ↦ go (atoi (form_value req "interest")) (ground arith)
    ]
      where
        go :
            (o : Option ℤ)
            → use_interest cur d req dr w o ≡ some (resp, w')
            → WorldIsSpared other did w w'
        go none k = stays w w' silent resp k
        go (some (negsuc n)) k = stays w w' silent resp k
        go (some (pos n)) k =
            changes w w' (set_interest cur d (pos n) dr.tries w.event) (λ r. redirect_back req) resp
              (λ r db p. set_interest-IsSpared other did cur d (pos n) dr.tries w.event db r p) k

    module _ (named_exec_empty : Res (Unit {0})) (d : Discussion)
        (mine : may_edit_discussion cur d ≡ true → did ≢ d.discussion_id) where
      post_slots-spares :
          (w w' : World)
          → post_slots named_exec_empty cur d.discussion_id req dr w ≡ some (resp, w')
          → WorldIsSpared other did w w'
      unfolding post_slots
      post_slots-spares w w' h = stays w w' (redirect "view") resp (ground (arith, plain))

      after_update-spares :
          (w w' : World) (o : Option (Res (Unit {0}) × Db))
          → ((r : Res (Unit {0})) (db : Db) → o ≡ some (r, db) → IsSpared other did w.event db)
          → after_update named_exec_empty cur d.discussion_id req dr w o ≡ some (resp, w')
          → WorldIsSpared other did w w'
      unfolding is_validation_error
      after_update-spares w w' none spared h = absurd (ground arith)
      after_update-spares w w' (some (ok u, db)) spared h =
          let (s, k) = post_slots-spares (record w { event = db }) w' h in
          (IsSpared-trans other did w.event db w'.event (spared (ok u) db refl) s, k)
      after_update-spares w w' (some (err e, db)) spared h =
          let same : record w { event = db } ≡ w' = ground arith in
          subst (WorldIsSpared other did w) same (spared (err e) db refl, refl)

      post_discussion_edit-spares :
          (w w' : World)
          → post_discussion_edit named_exec_empty cur d req dr w ≡ some (resp, w')
          → WorldIsSpared other did w w'
      unfolding post_discussion_edit
      post_discussion_edit-spares w w' h = elim (Bool-cases (may_edit_discussion cur d)) [
        | inl allowed ↦
            elim (Bool-cases (
              get_bool_def dr.flag flag_require_verification w.kvs
              && not (is_verified (some cur)))) [
                | inl unverified ↦ stays w w' (redirect "/uid/user/self/view") resp (ground arith)
                | inr verified ↦
                    after_update-spares w w'
                      (discussion_update (discussion_next cur req d) dr.change w.event)
                      (λ r db p.
                        discussion_update-IsSpared other did (discussion_next cur req d)
                          (mine allowed) dr.change w.event db r p)
                      (ground arith)
              ]
        | inr refused ↦ stays w w' silent resp (ground arith)
      ]

      post_discussion_delete-spares :
          (w w' : World)
          → post_discussion_delete named_exec_empty cur d dr w ≡ some (resp, w')
          → WorldIsSpared other did w w'
      unfolding post_discussion_delete
      post_discussion_delete-spares w w' h = elim (Bool-cases (may_edit_discussion cur d)) [
        | inl allowed ↦
            changes w w' (delete_discussion d.discussion_id dr.change w.event)
              (λ r. redirect "/list/discussion") resp
              (λ r db p.
                delete_discussion-IsSpared other did d (mine allowed) dr.change w.event db r p)
              (ground arith)
        | inr refused ↦ stays w w' silent resp (ground arith)
      ]

      pub discussion_action-spares :
          (w w' : World)
          → discussion_action named_exec_empty cur d req dr w ≡ some (resp, w')
          → WorldIsSpared other did w w'
      unfolding discussion_action post_public
      discussion_action-spares w w' h = elim (Bool-cases (req.action == "setinterest")) [
        | inl interest ↦ post_interest-spares d w w' (ground arith)
        | inr k₁ ↦ elim (Bool-cases (req.action == "edit")) [
          | inl edit ↦ post_discussion_edit-spares w w' (ground arith)
          | inr k₂ ↦ elim (Bool-cases (req.action == "delete")) [
            | inl delete ↦ post_discussion_delete-spares w w' (ground arith)
            | inr k₃ ↦ stays w w' silent resp (ground arith)
          ]
        ]
      ]

    module _ (user : User) (ne : may_edit_user cur user ≡ true → other ≢ user.user_id) where
      verified-spares :
          (b : Bool) (answer : Res (Unit {0}) → Response) (w w' : World)
          → may_edit_user cur user ≡ true
          → after_change w (set_verified user b dr.tries w.event) answer ≡ some (resp, w')
          → WorldIsSpared other did w w'
      verified-spares b answer w w' allowed h =
          changes w w' (set_verified user b dr.tries w.event) answer resp
            (λ r db p.
              set_verified-IsSpared other did user.user_id (ne allowed) user b dr.tries w.event db r
                refl p)
            h

      module _ (crypt : Bcrypt) (salt : String) (load_location : String → Option String) where
        parse_profile-user_id : (u : User) → (parse_profile load_location req u).user_id ≡ u.user_id
        unfolding parse_profile
        parse_profile-user_id u = elim (Bool-cases (form_value req "Location" == "")) [
          | inl unset ↦ rw unset refl
          | inr set ↦ rw set (go (load_location (form_value req "Location")) _)
        ]
          where
            go : (o : Option String) (v : User) → (set_location o v).user_id ≡ v.user_id
            go none v = refl
            go (some name) v = refl

        post_user_edit-spares :
            (w w' : World)
            → may_edit_user cur user ≡ true
            → post_user_edit crypt salt load_location cur user req dr w ≡ some (resp, w')
            → WorldIsSpared other did w w'
        unfolding post_user_edit
        post_user_edit-spares w w' allowed h =
            changes w w' _ answer_edit resp
              (λ r db p.
                user_update-IsSpared other did user.user_id (ne allowed) crypt salt
                  (parse_profile load_location req user) cur (form_value req "currentPassword")
                  (form_value req "newPassword") dr.tries w.event db r (parse_profile-user_id user)
                  p)
              h

        post_verify-spares :
            (w w' : World)
            → may_edit_user cur user ≡ true
            → post_verify user req dr w ≡ some (resp, w')
            → WorldIsSpared other did w w'
        unfolding post_verify
        post_verify-spares w w' allowed h =
            elim (Bool-cases
              (form_value req "Vcode" == value_of (get dr.code verification_code w.kvs))) [
                | inl right ↦
                    verified-spares true (λ r. redirect "view?flash=Account+Verified") w w' allowed
                      (ground arith)
                | inr wrong ↦
                    stays w w' (redirect "view?flash=Invalid+Validation+Code") resp (ground arith)
              ]

        pub user_action-spares :
            (named_exec_empty : Res (Unit {0})) (w w' : World)
            → user_action crypt salt load_location named_exec_empty cur user req dr w
              ≡ some (resp, w')
            → WorldIsSpared other did w w'
        unfolding user_action post_verified post_user_delete
        user_action-spares named_exec_empty w w' h = elim (Bool-cases (may_edit_user cur user)) [
          | inr refused ↦ stays w w' silent resp (ground arith)
          | inl allowed ↦ elim (Bool-cases (req.action == "edit")) [
            | inl edit ↦ post_user_edit-spares w w' allowed (ground arith)
            | inr k₁ ↦ elim (Bool-cases (req.action == "setverified")) [
              | inl set ↦ stays w w' silent resp (ground arith)
              | inr k₂ ↦ elim (Bool-cases (req.action == "verify")) [
                | inl verify ↦ post_verify-spares w w' allowed (ground arith)
                | inr k₃ ↦ elim (Bool-cases (req.action == "delete")) [
                  | inl delete ↦ stays w w' silent resp (ground arith)
                  | inr k₄ ↦ stays w w' (redirect "view") resp (ground arith)
                ]
              ]
            ]
          ]
        ]

-- ===== src/Web/Uid/Access.antt =====
-- About who may change what by HandleUidPost (handle_discussion.go).
use session_scheduler.Base.{
  String, true, false, ◌&&◌, ◌≡◌, ◌≢◌, inl, inr, refl, ap, sym, subst, ◌∙◌, Option, none, some,
  ◌==◌, ==_iff, string_key, arith, Bool-cases, some_inj,
}
use session_scheduler.Sql.{first_where}
use session_scheduler.Sql.Rows.{first_where_passes}
use session_scheduler.Tx.{Res}
use session_scheduler.Db.{User, Discussion, Db}
use session_scheduler.Db.Keys.{is_discussion}
use session_scheduler.User.{Bcrypt}
use session_scheduler.User.Find.{may_edit_user, may_edit_discussion, user_find}
use session_scheduler.User.Find.Laws.{user_find_keeps}
use session_scheduler.Discussion.Full.{DiscussionFull, discussion_find_by_id_full}
use session_scheduler.Discussion.Full.Laws.{AtMost, at_most, discussion_find_by_id_full-FullOutcome}
use session_scheduler.Web.{World, Request, Driver, Response, silent, request_user, requested}
use session_scheduler.Web.Requests.{request_user-IsSignedIn}
use session_scheduler.Web.Uid.{
  with_discussion, with_user, post_uid, target_id, with_requested, handle_uid_post,
  is_discussion_action, is_user_action,
}
use session_scheduler.Web.Uid.Laws.{
  WorldIsSpared, stays, discussion_action-spares, user_action-spares,
}

module _ (cur : User) (named : cur.user_id ≢ "") (other did : String) (ne : other ≢ cur.user_id)
    (d : Discussion) (theirs : d.owner ≢ cur.user_id) (plain : cur.is_admin ≡ false) where
  -- What the user may edit is not the other's.
  not_mine :
      (target : String) (db : Db) (df : DiscussionFull)
      → first_where (is_discussion did) db.discussions ≡ some d
      → AtMost target db (some df)
      → may_edit_discussion cur df.discussion ≡ true
      → did ≢ df.discussion.discussion_id
  unfolding may_edit_discussion
  not_mine target db df there (inl zero) allowed same =
      ground (arith, named, ==_iff cur.user_id df.discussion.owner, ap Discussion.owner zero)
  not_mine target db df there (inr row) allowed same =
      let found : df.discussion.discussion_id ≡ target =
        (==_iff df.discussion.discussion_id target).0
          (first_where_passes (is_discussion target) db.discussions df.discussion row) in
      let one : first_where (is_discussion did) db.discussions ≡ some df.discussion =
        ap (λ i. first_where (is_discussion i) db.discussions) (same ∙ found) ∙ row in
      theirs (
        ap Discussion.owner (some_inj (sym there ∙ one))
        ∙ ground (arith, ==_iff cur.user_id df.discussion.owner))

  -- A lookup leaves the database.
  back :
      (w w' : World) (db : Db)
      → db ≡ w.event
      → WorldIsSpared other did (record w { event = db }) w'
      → WorldIsSpared other did w w'
  back w w' db same h = subst (λ x. WorldIsSpared other did (record w { event = x }) w') same h

  not_me : (user : User) → may_edit_user cur user ≡ true → other ≢ user.user_id
  unfolding may_edit_user
  not_me user allowed = ground (arith, ne, ==_iff cur.user_id user.user_id)

  module _ (crypt : Bcrypt) (salt : String) (load_location : String → Option String)
      (named_exec_empty : Res (Unit {0})) (req : Request) (dr : Driver) (resp : Response) where
    with_discussion-spares :
        (target : String) (w w' : World)
        → first_where (is_discussion did) w.event.discussions ≡ some d
        → with_discussion crypt salt load_location named_exec_empty cur req dr w
            (discussion_find_by_id_full target dr.target w.event)
          ≡ some (resp, w')
        → WorldIsSpared other did w w'
    with_discussion-spares target w w' there h =
        go (discussion_find_by_id_full target dr.target w.event) refl h
      where
        go :
            (o : Option (Option DiscussionFull × (Res (Unit {0}) × Db)))
            → discussion_find_by_id_full target dr.target w.event ≡ o
            → with_discussion crypt salt load_location named_exec_empty cur req dr w o
              ≡ some (resp, w')
            → WorldIsSpared other did w w'
        go none p k = absurd (ground arith)
        go (some (none, (r, db))) p k =
            let (out, same) =
              discussion_find_by_id_full-FullOutcome target w.event dr.target db none r p in
            back w w' db same (stays other did (record w { event = db }) w' silent resp k)
        go (some (some df, (r, db))) p k =
            let (out, same) =
              discussion_find_by_id_full-FullOutcome target w.event dr.target db (some df) r p in
            back w w' db same (
              discussion_action-spares other did cur plain req dr resp named_exec_empty
                df.discussion
                (not_mine target w.event df there (at_most target w.event (some df) r out))
                (record w { event = db }) w' k)

    with_user-spares :
        (target : String) (w w' : World)
        → with_user crypt salt load_location named_exec_empty cur req dr w
            (user_find target dr.target w.event)
          ≡ some (resp, w')
        → WorldIsSpared other did w w'
    with_user-spares target w w' h = go (user_find target dr.target w.event) refl h
      where
        go :
            (o : Option (Option User × (Res (Unit {0}) × Db)))
            → user_find target dr.target w.event ≡ o
            → with_user crypt salt load_location named_exec_empty cur req dr w o ≡ some (resp, w')
            → WorldIsSpared other did w w'
        go none p k = absurd (ground arith)
        go (some (none, (r, db))) p k =
            back w w' db (user_find_keeps target dr.target w.event db none r p)
              (stays other did (record w { event = db }) w' silent resp k)
        go (some (some user, (r, db))) p k =
            back w w' db (user_find_keeps target dr.target w.event db (some user) r p) (
              user_action-spares other did cur plain req dr resp user (not_me user) crypt salt
                load_location named_exec_empty (record w { event = db }) w' k)

    post_uid-spares :
        (w w' : World)
        → first_where (is_discussion did) w.event.discussions ≡ some d
        → post_uid crypt salt load_location named_exec_empty cur req dr w ≡ some (resp, w')
        → WorldIsSpared other did w w'
    unfolding post_uid
    post_uid-spares w w' there h =
        elim (Bool-cases (req.itype == "discussion" && is_discussion_action req.action)) [
          | inl discussion ↦ with_discussion-spares (target_id cur req) w w' there (ground arith)
          | inr k₁ ↦ elim (Bool-cases (req.itype == "user" && is_user_action req.action)) [
            | inl user ↦ with_user-spares (target_id cur req) w w' (ground arith)
            | inr k₂ ↦ stays other did w w' silent resp (ground arith)
          ]
        ]

-- HandleUidPost from a user who is not an administrator, however it ends and whatever the drivers
-- do: no row of another user changes, nor a discussion that somebody else owns; nobody's name,
-- identifier or administrator's flag changes and no user comes or goes; locations, days, slots and
-- the configuration stay as they are.
pub handle_uid_post_spares :
    (crypt : Bcrypt) (salt : String) (load_location : String → Option String)
    (named_exec_empty : Res (Unit {0})) (req : Request) (dr : Driver) (resp : Response)
    (w w₁ w' : World) (cur : User) (other did : String) (d : Discussion)
    → request_user req dr w ≡ some (requested (some cur), w₁)
    → cur.is_admin ≡ false
    → other ≢ cur.user_id
    → first_where (is_discussion did) w.event.discussions ≡ some d
    → d.owner ≢ cur.user_id
    → handle_uid_post crypt salt load_location named_exec_empty req dr w ≡ some (resp, w')
    → WorldIsSpared other did w w'
unfolding handle_uid_post
handle_uid_post_spares crypt salt load_location named_exec_empty req dr resp w w₁ w' cur other did d
      asked plain ne there theirs h =
    let (_, named, same) = request_user-IsSignedIn req dr w w₁ cur asked in
    post_uid-spares cur named other did ne d theirs plain crypt salt load_location named_exec_empty
      req dr resp w w' there
      (subst
        (λ x. post_uid crypt salt load_location named_exec_empty cur req dr x ≡ some (resp, w'))
        same
        (subst
          (λ x. with_requested crypt salt load_location named_exec_empty req dr x ≡ some (resp, w'))
          asked h))

-- ===== src/Web/Uid/Keeps.antt =====
-- About what one change of a user or a discussion leaves alone.
use session_scheduler.Base.{
  ltb, ℕ, ℤ, pos, negsuc, String, Bool, true, false, ◌≡◌, ◌≢◌, inl, inr, refl, ap, sym, subst, ◌∙◌,
  Option, none, some, List, [], ◌∷◌, map, ◌==◌, ==_iff, string_key, nat_key, arith, Bool-cases,
}
use session_scheduler.Sql.{first_where, update_where}
use session_scheduler.Sql.Rows.{first_where-delete_where, first_where-update_where_ne}
use session_scheduler.Errors.{Error}
use session_scheduler.Tx.{Res, ok, err, Fault, Round, tx_loop, update}
use session_scheduler.Tx.Atomic.{then_return-keeps, tx_loop_atomic}
use session_scheduler.Db.{User, Discussion, Db}
use session_scheduler.Db.Keys.{is_user, is_discussion, is_interest}
use session_scheduler.Db.Tables.{upsert_interest, delete_interest}
use session_scheduler.User.{Bcrypt}
use session_scheduler.User.{interest_max}
use session_scheduler.User.Interest.Laws.{written, upsert_rest}
use session_scheduler.User.Interest.{store_interest, set_interest, name_interest_error}
use session_scheduler.User.Update.{update_users, user_update, set_verified}
use session_scheduler.User.Update.Laws.{Fixed, fixed, OnlyProfile, user_update-OnlyProfile}
use session_scheduler.Discussion.Create.{check_discussion_params}
use session_scheduler.Discussion.Update.{discussion_update_tx, discussion_update}
use session_scheduler.Discussion.Update.Laws.{as_asked, discussion_update_stores}
use session_scheduler.Discussion.Delete.{delete_discussion, delete_discussion_tx}
use session_scheduler.Discussion.Delete.Laws.{delete_discussion_exact, without_discussions}

-- What makes a user who they are, and an administrator.
pub record Rights : Type 0 where
  pub user_id : String
  pub username : String
  pub is_admin : Bool

abbrev pub rights : User → Rights
rights u = record { user_id = u.user_id; username = u.username; is_admin = u.is_admin }

-- The row of the user `other`, the row of the discussion `did`, everybody's rights, and the
-- locations, days and slots are the same in both databases.
pub record IsSpared (other did : String) (db db' : Db) : Type 0 where
  pub user : first_where (is_user other) db'.users ≡ first_where (is_user other) db.users
  pub discussion :
      first_where (is_discussion did) db'.discussions
      ≡ first_where (is_discussion did) db.discussions
  pub everybody : map rights db'.users ≡ map rights db.users
  pub locations : db'.locations ≡ db.locations
  pub days : db'.days ≡ db.days
  pub slots : db'.slots ≡ db.slots

module _ (other did : String) where
  pub IsSpared-refl : (db : Db) → IsSpared other did db db
  IsSpared-refl db = record {
    user = refl;
    discussion = refl;
    everybody = refl;
    locations = refl;
    days = refl;
    slots = refl;
  }

  pub IsSpared-same : (db db' : Db) → db' ≡ db → IsSpared other did db db'
  IsSpared-same db db' e = subst (IsSpared other did db) (sym e) (IsSpared-refl db)

  pub IsSpared-trans :
      (a b c : Db) → IsSpared other did a b → IsSpared other did b c → IsSpared other did a c
  IsSpared-trans a b c h k = record {
    user = k.user ∙ h.user;
    discussion = k.discussion ∙ h.discussion;
    everybody = k.everybody ∙ h.everybody;
    locations = k.locations ∙ h.locations;
    days = k.days ∙ h.days;
    slots = k.slots ∙ h.slots;
  }

  -- A change to the users alone.
  users_alone :
      (db db' : Db)
      → db' ≡ record db { users = db'.users }
      → first_where (is_user other) db'.users ≡ first_where (is_user other) db.users
      → map rights db'.users ≡ map rights db.users
      → IsSpared other did db db'
  users_alone db db' rest user everybody = record {
    user = user;
    discussion = ap (λ d. first_where (is_discussion did) d.discussions) rest;
    everybody = everybody;
    locations = ap Db.locations rest;
    days = ap Db.days rest;
    slots = ap Db.slots rest;
  }

  -- A change that leaves the users, locations, days and slots.
  discussions_alone :
      (db db' : Db)
      → db' ≡ record db {
        discussions = db'.discussions;
        interest = db'.interest;
        possible_slots = db'.possible_slots;
        schedule = db'.schedule;
      }
      → first_where (is_discussion did) db'.discussions
        ≡ first_where (is_discussion did) db.discussions
      → IsSpared other did db db'
  discussions_alone db db' rest discussion = record {
    user = ap (λ d. first_where (is_user other) d.users) rest;
    discussion = discussion;
    everybody = ap (λ d. map rights d.users) rest;
    locations = ap Db.locations rest;
    days = ap Db.days rest;
    slots = ap Db.slots rest;
  }

rights_of_fixed :
    (us : List User)
    → map
        (λ (f : Fixed). record {
          user_id = f.user_id;
          username = f.username;
          is_admin = f.is_admin;
        })
        (map fixed us)
      ≡ map rights us
rights_of_fixed [] = refl
rights_of_fixed (u ∷ us) = ap (λ rest. rights u ∷ rest) (rights_of_fixed us)

rights-update_where :
    (p : User → Bool) (f : User → User) (us : List User)
    → ((u : User) → rights (f u) ≡ rights u)
    → map rights (update_where p f us) ≡ map rights us
unfolding update_where
rights-update_where p f [] h = refl
rights-update_where p f (u ∷ us) h = ground (arith, h u, rights-update_where p f us h)

module _ (other did uid : String) (ne : other ≢ uid) where
  not_mine : (u : User) → is_user other u ≡ true → is_user uid u ≡ false
  not_mine u h = ground (arith, ==_iff u.user_id other, ==_iff u.user_id uid, ne)

  profile-IsSpared : (db db' : Db) → OnlyProfile uid db db' → IsSpared other did db db'
  profile-IsSpared db db' h =
      users_alone other did db db' h.rest
        (sym (first_where-delete_where (is_user other) (is_user uid) db'.users not_mine)
          ∙ ap (first_where (is_user other)) h.others
          ∙ first_where-delete_where (is_user other) (is_user uid) db.users not_mine)
        (sym (rights_of_fixed db'.users) ∙ ap (map _) h.columns ∙ rights_of_fixed db.users)

  verified-IsSpared :
      (b : Bool) (db : Db)
      → IsSpared other did db (record db {
        users = update_where (is_user uid) (λ u. record u { is_verified = b }) db.users;
      })
  verified-IsSpared b db =
      users_alone other did db _ refl
        (first_where-update_where_ne (is_user other) (is_user uid)
          (λ u. record u { is_verified = b }) db.users not_mine (λ u. refl))
        (rights-update_where (is_user uid) (λ u. record u { is_verified = b }) db.users (λ u. refl))

  -- UserUpdate of the user `uid`, however it ends.
  pub user_update-IsSpared :
      (crypt : Bcrypt) (salt : String) (next cur : User) (current new : String)
      (fs : List (Option Fault)) (db db' : Db) (r : Res User)
      → next.user_id ≡ uid
      → user_update crypt salt next cur current new fs db ≡ some (r, db')
      → IsSpared other did db db'
  user_update-IsSpared crypt salt next cur current new fs db db' r e h = profile-IsSpared db db' (
      subst (λ i. OnlyProfile i db db') e
        (user_update-OnlyProfile crypt salt next cur current new fs db db' r h))

  -- SetVerified of the user `uid`, however it ends.
  pub set_verified-IsSpared :
      (u : User) (b : Bool) (fs : List (Option Fault)) (db db' : Db) (r : Res (Unit {0}))
      → u.user_id ≡ uid
      → set_verified u b fs db ≡ some (r, db')
      → IsSpared other did db db'
  unfolding set_verified update_users update
  set_verified-IsSpared u b fs db db' r e h =
      then_return-keeps (IsSpared other did db)
        (update_users u.user_id (λ v. record v { is_verified = b })) fs db db' (λ _. ok tt) err r
        (IsSpared-refl other did db)
        (λ d n p.
          subst (IsSpared other did db)
            (ap
                (λ i. record db {
                  users = update_where (is_user i) (λ v. record v { is_verified = b }) db.users;
                })
                (sym e)
              ∙ ground arith)
            (verified-IsSpared b db))
        h

module _ (other did : String) where
  interest_alone : (db d : Db) → d ≡ record db { interest = d.interest } → IsSpared other did db d
  interest_alone db d e =
      subst (IsSpared other did db) (sym e)
        (discussions_alone other did db (record db { interest = d.interest }) refl refl)

  store_interest-IsSpared :
      (uid id : String) (n : ℕ) (fs : List (Option Fault)) (db db' : Db) (r : Res (Unit {0}))
      → store_interest uid id n fs db ≡ some (r, db')
      → IsSpared other did db db'
  unfolding store_interest
  store_interest-IsSpared uid id n fs db db' r h = elim (Bool-cases (n == 0)) [
    | inl nothing ↦
        then_return-keeps (IsSpared other did db) (delete_interest (is_interest uid id)) fs db db'
          (λ _. ok tt) err r (IsSpared-refl other did db)
          (λ d k p. interest_alone db d (unfold delete_interest in ground arith)) (ground arith)
    | inr something ↦
        then_return-keeps (IsSpared other did db) (upsert_interest (written uid id n)) fs db db' ok
          name_interest_error r (IsSpared-refl other did db)
          (λ d k p. interest_alone db d (upsert_rest uid id n db d p)) (ground arith)
  ]

  -- SetInterest, however it ends.
  pub set_interest-IsSpared :
      (u : User) (d : Discussion) (n : ℤ) (fs : List (Option Fault)) (db db' : Db)
      (r : Res (Unit {0}))
      → set_interest u d n fs db ≡ some (r, db')
      → IsSpared other did db db'
  unfolding set_interest
  set_interest-IsSpared u d (negsuc n) fs db db' r h = IsSpared-same other did db db' (ground arith)
  set_interest-IsSpared u d (pos n) fs db db' r h = elim (Bool-cases (ltb interest_max n)) [
    | inl above ↦ IsSpared-same other did db db' (ground arith)
    | inr fits ↦ store_interest-IsSpared u.user_id d.discussion_id n fs db db' r (ground arith)
  ]

module _ (other did : String) (disc : Discussion) (ne : did ≢ disc.discussion_id) where
  elsewhere :
      (d : Discussion) → is_discussion did d ≡ true → is_discussion disc.discussion_id d ≡ false
  elsewhere d h =
      ground (arith, ==_iff d.discussion_id did, ==_iff d.discussion_id disc.discussion_id, ne)

  -- DiscussionUpdate of another discussion, however it ends.
  pub discussion_update-IsSpared :
      (rs : List Round) (db db' : Db) (r : Res (Unit {0}))
      → discussion_update disc rs db ≡ some (r, db')
      → IsSpared other did db db'
  unfolding discussion_update
  discussion_update-IsSpared rs db db' (ok u) h =
      let (_, (b, stored, _)) = discussion_update_stores disc rs db db' h in
      subst (IsSpared other did db) (sym stored.rest) (
        discussions_alone other did db
          (record db { discussions = db'.discussions; interest = db'.interest }) refl
          (ap (first_where (is_discussion did)) stored.discussions
            ∙ first_where-update_where_ne (is_discussion did) (is_discussion disc.discussion_id)
                (as_asked disc b) db.discussions elsewhere (λ d. refl)))
  discussion_update-IsSpared rs db db' (err e) h =
      IsSpared-same other did db db' (go (check_discussion_params disc) h)
    where
      go :
          (o : Option Error)
          → elim o [ some e ↦ some (err e, db) | none ↦ tx_loop (discussion_update_tx disc) rs db ]
            ≡ some (err e, db')
          → db' ≡ db
      go (some e') k = ground arith
      go none k = tx_loop_atomic (discussion_update_tx disc) rs db (err e, db') k

  -- DeleteDiscussion of another discussion, however it ends.
  pub delete_discussion-IsSpared :
      (rs : List Round) (db db' : Db) (r : Res (Unit {0}))
      → delete_discussion disc.discussion_id rs db ≡ some (r, db')
      → IsSpared other did db db'
  unfolding delete_discussion
  delete_discussion-IsSpared rs db db' (ok u) h =
      let (_, gone) = delete_discussion_exact disc.discussion_id rs db db' h in
      subst (IsSpared other did db) (sym gone) (
        discussions_alone other did db (without_discussions (λ x. x == disc.discussion_id) db) refl
          (first_where-delete_where (is_discussion did) (is_discussion disc.discussion_id)
            db.discussions elsewhere))
  delete_discussion-IsSpared rs db db' (err e) h =
      IsSpared-same other did db db'
        (tx_loop_atomic (delete_discussion_tx disc.discussion_id) rs db (err e, db') h)

-- ===== src/Sessions/Laws.antt =====
-- About the life of a session (sessions/session.go).
use session_scheduler.Base.{
  ℕ, ◌+◌, ◌*◌, ◌≤◌, ◌<◌, ◌≡◌, ◌≢◌, refl, ap, sym, ◌∙◌, subst, String, Option, none, some, any, ltb,
  arith, Bool-cases, Option-cases, inl, inr, ==_iff, ==_refl, string_key, if◌then◌else◌, ◌==◌,
}
use session_scheduler.Sql.{first_where, delete_where}
use session_scheduler.Sql.Laws.{any-delete_where, delete_where_none}
use session_scheduler.Sql.Rows.{
  first_where-append_hit, first_where-none, first_where-some, first_where-delete_where,
}
use session_scheduler.Tx.{Res, ok, err, Fault}
use session_scheduler.Sessions.{
  Session, SessionRow, SessionRows, SessionFaults, SignIn, Cookie, second, session_length, unix,
  is_row, row_of, session_of, fresh_session, cookie_of, save, find, delete, is_expired, new_session,
  use_found, request_session, find_or_create_session, keep_or_create, signed_in,
  delete_session_by_request,
}

-- The row of a session that a request is taken to belong to.
abbrev pub IsLive : ℕ → Session → SessionRows → Type 0
IsLive now s rows =
    (row : SessionRow) × (first_where (is_row s.id) rows ≡ some row)
    × (s ≡ session_of s.id row)
    × (now ≤ s.expiry)

find_lem :
    (f : Option Fault) (id : String) (rows : SessionRows) (s : Session)
    → find f id rows ≡ ok (some s)
    → (row : SessionRow) × (first_where (is_row id) rows ≡ some row) × (s ≡ session_of id row)
unfolding find
find_lem (some f) id rows s h = absurd (ground arith)
find_lem none id rows s h = elim (Option-cases (first_where (is_row id) rows)) [
  | inl e ↦ absurd (ground arith)
  | inr (row, e) ↦ (row, e, ground arith)
]

-- Whatever the driver does, a request is taken to belong to a session only when it carries the
-- session's identifier, the store holds a row under that identifier from which the session's user
-- and expiry are read, and the expiry is not past; and the store then stays as it is.
pub request_session-IsLive :
    (fs : SessionFaults) (now : ℕ) (cookie : Option String) (rows rows' : SessionRows) (s : Session)
    → request_session fs now cookie rows ≡ (some s, rows')
    → (cookie ≡ some s.id) × IsLive now s rows × (rows' ≡ rows)
unfolding request_session is_expired
request_session-IsLive fs now none rows rows' s h = absurd (ground arith)
request_session-IsLive fs now (some value) rows rows' s h = go (find fs.find value rows) refl h
  where
    go :
        (found : Res (Option Session))
        → find fs.find value rows ≡ found
        → use_found fs now found rows ≡ (some s, rows')
        → ◌≡◌ {A = Option String} (some value) (some s.id) × IsLive now s rows × (rows' ≡ rows)
    go (err e) p q = absurd (ground arith)
    go (ok none) p q = absurd (ground arith)
    go (ok (some t)) p q = elim (Bool-cases (ltb t.expiry now)) [
      | inl late ↦ absurd (ground arith)
      | inr early ↦
          let same : t ≡ s = ground arith in
          let (row, r, e) = find_lem fs.find value rows t p in
          subst
            (λ u.
              ◌≡◌ {A = Option String} (some value) (some u.id) × IsLive now u rows × (rows' ≡ rows))
            same (ground arith, (row, ground arith, ground arith, ground arith), ground arith)
    ]

found_session :
    (fs : SessionFaults) (now : ℕ) (id : String) (row : SessionRow) (rows : SessionRows)
    → fs.find ≡ none
    → first_where (is_row id) rows ≡ some row
    → (request_session fs now (some id) rows).0
      ≡ (if ltb (row.expiry_ts * second) now then none else some (session_of id row))
unfolding request_session find is_expired
found_session fs now id row rows quiet h = ground arith

missing_session :
    (fs : SessionFaults) (now : ℕ) (id : String) (rows : SessionRows)
    → first_where (is_row id) rows ≡ none
    → request_session fs now (some id) rows ≡ (none, rows)
unfolding request_session find
missing_session fs now id rows h = elim (Option-cases fs.find) [
  | inl quiet ↦ ground arith
  | inr (f, broken) ↦ ground arith
]

-- A session saved is found in its row.
pub saved_row :
    (f : Option Fault) (s : Session) (rows rows' : SessionRows)
    → save f s rows ≡ (ok tt, rows')
    → first_where (is_row s.id) rows' ≡ some (row_of s)
unfolding save
saved_row (some f) s rows rows' h = absurd (ground arith)
saved_row none s rows rows' h = elim (Bool-cases (any (is_row s.id) rows)) [
  | inl taken ↦ absurd (ground arith)
  | inr fresh ↦
      subst (λ r. first_where (is_row s.id) r ≡ some (row_of s)) (ground arith)
        (first_where-append_hit (is_row s.id) rows (row_of s) fresh (==_refl s.id))
]

pub new_session_parts :
    (fs : SessionFaults) (t : ℕ) (id uid : String) (rows rows' : SessionRows) (s : Session)
    (c : Cookie) (r : Res (Unit {0}))
    → new_session fs t id uid rows ≡ ((s, c, r), rows')
    → (s ≡ fresh_session id uid t)
      × (c ≡ cookie_of (fresh_session id uid t))
      × (save fs.save (fresh_session id uid t) rows ≡ (r, rows'))
unfolding new_session
new_session_parts fs t id uid rows rows' s c r h =
    (ap (λ x. x.0.0) (sym h), ap (λ x. x.0.1) (sym h), ap (λ x. (x.0.2, x.1)) h)

-- When NewSession reports no error, a later request with the cookie that it sets is taken to belong
-- to the user for whom it was called, up to the time that the cookie expires at, cut to the second,
-- and to nobody after it; that cut takes less than a second from the 72 hours.
pub new_session_lasts :
    (fs later : SessionFaults) (t now : ℕ) (id uid : String) (rows rows' : SessionRows)
    (s : Session) (c : Cookie)
    → new_session fs t id uid rows ≡ ((s, c, ok tt), rows')
    → later.find ≡ none
    → (c.expires ≡ t + session_length)
      × ((request_session later now (some c.value) rows').0 ≡ (
          if ltb (unix c.expires * second) now
          then none
          else some (record { id = c.value; user_id = uid; expiry = unix c.expires * second })))
      × (unix c.expires * second ≤ c.expires)
      × (c.expires < unix c.expires * second + second)
unfolding new_session
new_session_lasts fs later t now id uid rows rows' s c h quiet =
    let (made, baked, saved) = new_session_parts fs t id uid rows rows' s c (ok tt) h in
    let expiry : c.expires ≡ t + session_length = ap Cookie.expires baked in
    let name : c.value ≡ id = ap Cookie.value baked in
    (
      expiry,
      rw (name, expiry)
          (found_session later now id (row_of (fresh_session id uid t)) rows' quiet
            (saved_row fs.save (fresh_session id uid t) rows rows' saved)),
      omega arith,
      omega arith,
    )

-- What is known of a sign-in that reports no error.
abbrev SignedIn : String → SignIn → SessionRows → Type 0
SignedIn uid a rows =
    (row : SessionRow) × (first_where (is_row a.session.id) rows ≡ some row)
    × (row.user_id ≡ uid)
    × (a.session.user_id ≡ uid)
    × (unix a.session.expiry ≡ row.expiry_ts)

created-SignedIn :
    (fs : SessionFaults) (t : ℕ) (id uid : String) (rows rows' : SessionRows) (a : SignIn)
    → signed_in (new_session fs t id uid rows) ≡ (a, rows')
    → a.result ≡ ok tt
    → SignedIn uid a rows'
unfolding new_session
created-SignedIn fs t id uid rows rows' a h good =
    let same : a.session ≡ fresh_session id uid t = ap (λ x. x.0.session) (sym h) in
    let saved : save fs.save (fresh_session id uid t) rows ≡ (ok tt, rows') = ground arith in
    (
      row_of (fresh_session id uid t),
      rw same (saved_row fs.save (fresh_session id uid t) rows rows' saved),
      refl,
      ap Session.user_id same,
      ap (λ s. unix s.expiry) same,
    )

kept-SignedIn :
    (now : ℕ) (uid : String) (rows : SessionRows) (s : Session) (a : SignIn)
    → IsLive now s rows
    → s.user_id ≡ uid
    → a.session ≡ s
    → SignedIn uid a rows
kept-SignedIn now uid rows s a (row, r, e, live) mine same = (
  row,
  rw same r,
  ap Session.user_id (sym e) ∙ mine,
  ap Session.user_id same ∙ mine,
  ap (λ u. unix u.expiry) (same ∙ e) ∙ omega arith,
)

find_or_create_session-SignedIn :
    (fs : SessionFaults) (now t : ℕ) (cookie : Option String) (id uid : String)
    (rows rows' : SessionRows) (a : SignIn)
    → find_or_create_session fs now t cookie id uid rows ≡ (a, rows')
    → a.result ≡ ok tt
    → SignedIn uid a rows'
unfolding find_or_create_session
find_or_create_session-SignedIn fs now t cookie id uid rows rows' a h good =
    go (request_session fs now cookie rows) refl h
  where
    go :
        (x : Option Session × SessionRows)
        → request_session fs now cookie rows ≡ x
        → keep_or_create fs t id uid x ≡ (a, rows')
        → SignedIn uid a rows'
    go (none, left) p q = created-SignedIn fs t id uid left rows' a q good
    go (some s, left) p q = elim (Bool-cases (s.user_id == uid)) [
      | inl mine ↦
          let (sent, live, same) = request_session-IsLive fs now cookie rows left s p in
          let q' : ◌≡◌ {A = SignIn × SessionRows}
              (record { session = s; cookie = none; result = ok tt }, left) (a, rows') =
            ground arith in
          subst (SignedIn uid a) (sym same ∙ ap (λ x. x.1) q') (
            kept-SignedIn now uid rows s a live ((==_iff s.user_id uid).0 mine)
              (sym (ap (λ x. x.0.session) q')))
      | inr other ↦ created-SignedIn fs t id uid left rows' a (ground arith) good
    ]

-- When FindOrCreateSession reports no error, its session belongs to the user asked for, and any
-- later request with the session's identifier, up to the session's expiry cut to the second and
-- with the store being read, is taken to belong to a session of that user.
pub find_or_create_session_signs_in :
    (fs later : SessionFaults) (now t n : ℕ) (cookie : Option String) (id uid : String)
    (rows rows' : SessionRows) (a : SignIn)
    → find_or_create_session fs now t cookie id uid rows ≡ (a, rows')
    → a.result ≡ ok tt
    → later.find ≡ none
    → n ≤ unix a.session.expiry * second
    → (a.session.user_id ≡ uid)
      × (s : Session) × ((request_session later n (some a.session.id) rows').0 ≡ some s)
      × (s.user_id ≡ uid)
find_or_create_session_signs_in fs later now t n cookie id uid rows rows' a h good quiet soon =
    let (row, r, owner, mine, stamp) =
      find_or_create_session-SignedIn fs now t cookie id uid rows rows' a h good in
    (
      mine,
      session_of a.session.id row,
      found_session later n a.session.id row rows' quiet r ∙ ground (arith, stamp, soon),
      owner,
    )

sign_out_deletes :
    (fs : SessionFaults) (now : ℕ) (value : String) (rows : SessionRows)
    → fs.find ≡ none
    → fs.delete ≡ none
    → fs.save ≡ none
    → delete_session_by_request fs now (some value) rows ≡ (ok tt, delete_where (is_row value) rows)
unfolding delete_session_by_request request_session is_expired delete find
sign_out_deletes fs now value rows f d w = elim (Bool-cases (any (is_row value) rows)) [
  | inl there ↦ let (row, r, mine) = first_where-some (is_row value) rows there in ground (arith, r)
  | inr missing ↦ ground (
    arith,
    first_where-none (is_row value) rows missing,
    delete_where_none (is_row value) rows missing,
  )
]

-- After a request to sign out whose statements the driver lets through, no request with its cookie
-- is taken to belong to a session, whatever the time and the driver's reports, and the row of every
-- other identifier is as before.
pub delete_session_by_request_signs_out :
    (fs later : SessionFaults) (now n : ℕ) (value other : String) (rows : SessionRows)
    → fs.find ≡ none
    → fs.delete ≡ none
    → fs.save ≡ none
    → other ≢ value
    → let (result, rows') = delete_session_by_request fs now (some value) rows in
      (result ≡ ok tt)
      × (request_session later n (some value) rows' ≡ (none, rows'))
      × (first_where (is_row other) rows' ≡ first_where (is_row other) rows)
delete_session_by_request_signs_out fs later now n value other rows f d w ne =
    rw (sign_out_deletes fs now value rows f d w) (
      refl,
      missing_session later n value (delete_where (is_row value) rows) (
          first_where-none (is_row value) (delete_where (is_row value) rows)
            (any-delete_where (is_row value) (is_row value) rows (λ x h. h))),
      first_where-delete_where (is_row other) (is_row value) rows
          (λ x h. ground (arith, ==_iff x.id other, ==_iff x.id value, ne)),
    )

-- ===== src/Examples/Signed.antt =====
-- Sessions: a visitor who signs in, comes back and signs out.
use session_scheduler.Base.{
  ℕ, ◌+◌, ◌*◌, ◌≤◌, ◌<◌, ◌≡◌, refl, String, Option, none, some, [], ◌∷◌, ltb, if◌then◌else◌, arith,
}
use session_scheduler.Sql.{first_where, delete_where, select}
use session_scheduler.Tx.{ok}
use session_scheduler.Sessions.{
  Session, SessionRow, SessionRows, SessionFaults, SignIn, Cookie, second, session_length, unix,
  is_row, find, delete, save, is_expired, new_session, request_session, find_or_create_session,
  delete_session_by_request,
}
use session_scheduler.Sessions.Laws.{
  IsLive, request_session-IsLive, new_session_lasts, find_or_create_session_signs_in,
  delete_session_by_request_signs_out,
}

abbrev smooth : SessionFaults
smooth = record { find = none; delete = none; save = none }

abbrev ann_row : SessionRow
ann_row = record { id = "s1"; user_id = "ann"; expiry_ts = 100 }

abbrev bob_row : SessionRow
bob_row = record { id = "old"; user_id = "bob"; expiry_ts = 1 }

abbrev rows : SessionRows
rows = bob_row ∷ ann_row ∷ []

abbrev ann_session : Session
ann_session = record { id = "s1"; user_id = "ann"; expiry = 100 * second }

request_session-IsLive_example :
    ◌≡◌ {A = Option String} (some "s1") (some "s1")
    × IsLive (50 * second) ann_session rows
    × (rows ≡ rows)
unfolding request_session find first_where is_expired
request_session-IsLive_example =
    request_session-IsLive smooth (50 * second) (some "s1") rows rows ann_session refl

-- Half a second past seven.
abbrev opened : ℕ
opened = 7500000000

abbrev bob_cookie : Cookie
bob_cookie = record { value = "s3"; expires = opened + session_length }

abbrev bob_again : SessionRow
bob_again = record { id = "s3"; user_id = "bob"; expiry_ts = 259207 }

new_session_lasts_example :
    (bob_cookie.expires ≡ opened + session_length)
    × ((request_session smooth opened (some "s3") (bob_row ∷ ann_row ∷ bob_again ∷ [])).0 ≡ (
        if ltb (unix bob_cookie.expires * second) opened
        then none
        else some
            (record { id = "s3"; user_id = "bob"; expiry = unix bob_cookie.expires * second })))
    × (unix bob_cookie.expires * second ≤ bob_cookie.expires)
    × (bob_cookie.expires < unix bob_cookie.expires * second + second)
unfolding new_session save
new_session_lasts_example =
    new_session_lasts smooth smooth opened opened "s3" "bob" rows
      (bob_row ∷ ann_row ∷ bob_again ∷ [])
      (record { id = "s3"; user_id = "bob"; expiry = opened + session_length }) bob_cookie refl refl

-- Bob's session has expired, so that a new one is made.
abbrev bob_signed_in : SignIn
bob_signed_in = record {
  session = record { id = "s3"; user_id = "bob"; expiry = opened + session_length };
  cookie = some bob_cookie;
  result = ok tt;
}

find_or_create_session_signs_in_example :
    ◌≡◌ {A = String} "bob" "bob"
    × (s : Session) × ((request_session smooth
          (8 * second)
          (some "s3")
          (ann_row ∷ bob_again ∷ [])).0
        ≡ some s)
    × (s.user_id ≡ "bob")
unfolding find_or_create_session request_session new_session save find first_where delete
    delete_where select is_expired
find_or_create_session_signs_in_example =
    find_or_create_session_signs_in smooth smooth opened opened (8 * second) (some "old") "s3" "bob"
      rows (ann_row ∷ bob_again ∷ []) bob_signed_in refl refl refl (omega arith)

delete_session_by_request_signs_out_example :
    let (result, rows') = delete_session_by_request smooth opened (some "s1") rows in
    (result ≡ ok tt)
    × (request_session smooth opened (some "s1") rows' ≡ (none, rows'))
    × (first_where (is_row "old") rows' ≡ first_where (is_row "old") rows)
delete_session_by_request_signs_out_example =
    delete_session_by_request_signs_out smooth smooth opened opened "s1" "old" rows refl refl refl
      (λ e. cc)

-- ===== src/Web/Middleware.antt =====
-- Middleware.ServeHTTP (middleware.go): which of the four routers' handlers a request gets to.
-- What httprouter's Lookup finds for the request in each router is an argument.
pub mod Laws
use session_scheduler.Base.{
  String, Bool, true, false, ◌||◌, Option, none, some, List, [], ◌∷◌, if◌then◌else◌, ◌++◌,
}
use session_scheduler.Db.{User}
use session_scheduler.Keyvalue.{get_bool_def}
use session_scheduler.Web.{
  World, Request, Driver, Response, redirect, silent, panics, not_found, Requested, requested,
  user_find_failed, request_user, flag_active, is_admin,
}

abbrev pub Handler : Type 0
Handler = World → Option (Response × World)

-- Logger, and what Lookup gives for the method and path of the request.
pub record Middleware : Type 0 where
  pub always : Option Handler
  pub active : Option Handler
  pub user_auth : Option Handler
  pub admin : Option Handler

-- mw.written; a panic ends the request as well.
abbrev pub is_written : Response → Bool
is_written silent = false
is_written _ = true

-- What has been written to `w`, in order, and the stores.
abbrev pub Reply : Type 0
Reply = List Response × World

-- One router's part: the handler, if any, and what follows where it does not write. `before` is
-- what has been written past `mw`.
abbrev pub after_handler :
    List Response → (World → Option Reply) → Option (Response × World) → Option Reply
after_handler before rest none = none
after_handler before rest (some (resp, w)) =
    let goes_on = rest w in if is_written resp then some (before ++ resp ∷ [], w) else goes_on

abbrev pub try_handler :
    Option Handler → List Response → (World → Option Reply) → World → Option Reply
try_handler none before rest w = rest w
try_handler (some handler) before rest w = after_handler before rest (handler w)

abbrev pub is_signed_in : Option User → Bool
is_signed_in none = false
is_signed_in (some u) = true

-- http.NotFound(w, r)
abbrev pub serve_not_found : List Response → World → Option Reply
serve_not_found before w = some (before ++ not_found ∷ [], w)

unfoldable pub serve_admin : Middleware → Option User → List Response → World → Option Reply
unfolding is_admin
serve_admin m u before w =
    if is_admin u
    then try_handler m.admin before (serve_not_found before) w
    else serve_not_found before w

-- RequireLogin, with the page asked for, has written.
abbrev pub require_login : (login_url : String) → Option User → Option Handler → Option Handler
require_login login_url u none = none
require_login login_url none (some handler) = some (λ w. some (redirect login_url, w))
require_login login_url (some u) (some handler) = some handler

unfoldable pub serve_user_auth :
    (login_url : String) → Middleware → Option User → List Response → World → Option Reply
unfolding serve_admin
serve_user_auth login_url m u before w =
    try_handler (require_login login_url u m.user_auth) before (serve_admin m u before) w

-- The redirection goes to `w` itself, so that it does not count as written.
abbrev pub serve_active :
    (login_url : String) → Middleware → Option User → Driver → World → Option Handler → Option Reply
serve_active login_url m u dr w none = serve_user_auth login_url m u [] w
serve_active login_url m u dr w (some handler) =
    let served = try_handler (some handler) [] (serve_user_auth login_url m u []) w in
    let turned_away = serve_user_auth login_url m u (redirect "/" ∷ []) w in
    if get_bool_def dr.flag flag_active w.kvs || is_signed_in u then served else turned_away

abbrev pub serve_requested :
    (login_url : String) → Middleware → Driver → Option (Requested × World) → Option Reply
serve_requested login_url m dr none = none
serve_requested login_url m dr (some (user_find_failed e, w)) = some (panics e ∷ [], w)
serve_requested login_url m dr (some (requested u, w)) = serve_active login_url m u dr w m.active

unfoldable pub serve_user :
    (login_url : String) → Middleware → Request → Driver → World → Option Reply
unfolding request_user serve_user_auth get_bool_def
serve_user login_url m req dr w = serve_requested login_url m dr (request_user req dr w)

abbrev pub serve_logged :
    (login_url : String) → Middleware → Request → Driver → Option (Requested × World) → Option Reply
serve_logged login_url m req dr none = none
serve_logged login_url m req dr (some (user_find_failed e, w)) = some (panics e ∷ [], w)
serve_logged login_url m req dr (some (requested u, w)) =
    try_handler m.always [] (serve_user login_url m req dr) w

-- `logger` is what the drivers report to LogRequest, which asks for the user as well.
unfoldable pub serve_http :
    (login_url : String) → Middleware → Request → (logger dr : Driver) → World → Option Reply
unfolding serve_user request_user
serve_http login_url m req logger dr w = serve_logged login_url m req dr (request_user req logger w)

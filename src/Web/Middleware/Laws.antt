-- ===== src/Web/Middleware/Laws.antt =====
-- About Middleware.ServeHTTP (middleware.go).
use session_scheduler.Base.{
  String, false, ◌||◌, ◌≡◌, refl, ap, ap₂, sym, ◌∙◌, Option, none, some, List, [], ◌∷◌,
  if◌then◌else◌,
}
use session_scheduler.Db.{User}
use session_scheduler.Keyvalue.{get_bool_def}
use session_scheduler.Web.{
  World, Request, Driver, Response, redirect, requested, request_user, is_admin, flag_active,
}
use session_scheduler.Web.Middleware.{
  Handler, Middleware, Reply, try_handler, is_signed_in, serve_admin, require_login,
  serve_user_auth, serve_active, serve_requested, serve_user, serve_logged, serve_http,
}

-- What stands where a handler wants a login: the login page for someone not signed in.
abbrev pub met_by : (login_url : String) → Option User → Option Handler → Option Handler
met_by login_url none none = none
met_by login_url none (some handler) = some (λ w. some (redirect login_url, w))
met_by login_url (some u) h = h

-- The routers as a user who is not an administrator meets them: no handler of the administrators,
-- and for someone not signed in the login page in place of the handlers that want a login.
abbrev pub as_met_by : (login_url : String) → Option User → Middleware → Middleware
as_met_by login_url u m = record m { admin = none; user_auth = met_by login_url u m.user_auth }

module _ (login_url : String) (m : Middleware) (u : Option User) (plain : is_admin u ≡ false) where
  admin_hidden :
      (before : List Response) (w : World)
      → serve_admin m u before w ≡ serve_admin (as_met_by login_url u m) u before w
  unfolding serve_admin
  admin_hidden before w = rw plain refl

  login_met :
      (v : Option User) (h : Option Handler)
      → require_login login_url v h ≡ require_login login_url v (met_by login_url v h)
  login_met none none = refl
  login_met none (some h) = refl
  login_met (some v) h = refl

  auth_hidden :
      (before : List Response) (w : World)
      → serve_user_auth login_url m u before w
        ≡ serve_user_auth login_url (as_met_by login_url u m) u before w
  unfolding serve_user_auth
  auth_hidden before w =
      ap₂ (λ h k. try_handler h before k w) (login_met u m.user_auth)
        (λ i x. admin_hidden before x i)

  active_hidden :
      (dr : Driver) (w : World) (h : Option Handler)
      → serve_active login_url m u dr w h
        ≡ serve_active login_url (as_met_by login_url u m) u dr w h
  active_hidden dr w none = auth_hidden [] w
  active_hidden dr w (some h) =
      ap₂
        (λ (served turned_away : Option Reply).
          if get_bool_def dr.flag flag_active w.kvs || is_signed_in u then served else turned_away)
        (ap (λ k. try_handler (some h) [] k w) (λ i x. auth_hidden [] x i))
        (auth_hidden (redirect "/" ∷ []) w)

-- A request that no handler of `always` takes, from somebody who is not a signed-in administrator,
-- is served as if there were no handlers for administrators, and, where nobody is signed in, as if
-- the handlers that want a login all led to the login page.
pub serve_http_guards :
    (login_url : String) (m : Middleware) (req : Request) (logger dr : Driver) (w w₀ w₁ : World)
    (v u : Option User)
    → m.always ≡ none
    → request_user req logger w ≡ some (requested v, w₀)
    → request_user req dr w₀ ≡ some (requested u, w₁)
    → is_admin u ≡ false
    → serve_http login_url m req logger dr w
      ≡ serve_http login_url (as_met_by login_url u m) req logger dr w
unfolding serve_http serve_user
serve_http_guards login_url m req logger dr w w₀ w₁ v u public logged asked plain =
    let served : (n : Middleware)
        → n.always ≡ none
        → serve_http login_url n req logger dr w ≡ serve_active login_url n u dr w₁ n.active =
      λ n e.
        ap (serve_logged login_url n req dr) logged
        ∙ ap (λ h. try_handler h [] (serve_user login_url n req dr) w₀) e
        ∙ ap (serve_requested login_url n dr) asked in
    served m public
    ∙ active_hidden login_url m u plain dr w₁ m.active
    ∙ sym (served (as_met_by login_url u m) public)

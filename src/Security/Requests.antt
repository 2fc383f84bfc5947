-- ===== src/Security/Requests.antt =====
-- Who a request is from: current_user and require_role of security.py, and the middleware of
-- http_security.py. What the server does behind the middleware is a parameter.
use agenstfer_agi.Base.{
  ℕ, String, Bool, true, false, ◌&&◌, ◌||◌, not, Option, none, some, List, [], ◌∷◌, ◌==◌,
  if◌then◌else◌, Result, ok, err, starts_with,
}
use agenstfer_agi.Base.Sets.{elem}
use agenstfer_agi.Security.{User, SecuritySettings, Session, cleared, HttpError, http_error}
use agenstfer_agi.Security.Users.{user_at}

-- `request.session.get("user_id")` finds a user: an empty id counts as none.
unfoldable pub session_user : Option String → List User → Option User
unfolding user_at
session_user none users = none
session_user (some id) users = if id == "" then none else user_at id users

unfoldable pub active_user : Option User → Option User
active_user none = none
active_user (some u) = if u.active then some u else none

abbrev pub is_set : Option String → Bool
is_set none = false
is_set (some s) = not (s == "")

-- The session is cleared if it names a user that is not there or not active.
unfoldable pub no_user : SecuritySettings → Session → Session × Result HttpError (Option User)
no_user settings session =
    let session' = if is_set session.user_id then cleared else session in
    if settings.demo_no_auth then (session', ok none) else (session', err (http_error 401))

unfoldable pub answer_user :
    SecuritySettings → Session → Option User → Session × Result HttpError (Option User)
unfolding no_user
answer_user settings session none = no_user settings session
answer_user settings session (some user) = (session, ok (some user))

unfoldable pub current_user :
    SecuritySettings → List User → Session → Session × Result HttpError (Option User)
unfolding answer_user active_user session_user
current_user settings users session =
    answer_user settings session (active_user (session_user session.user_id users))

unfoldable pub current_user_optional : List User → Session → Option User
unfolding active_user session_user
current_user_optional users session = active_user (session_user session.user_id users)

-- The dependency that require_role returns, on what current_user returned.
unfoldable pub require_role :
    String → SecuritySettings → Result HttpError (Option User) → Result HttpError (Option User)
unfolding elem
require_role role settings (err e) = err e
require_role role settings (ok none) =
    if settings.demo_no_auth then ok none else err (http_error 403)
require_role role settings (ok (some user)) =
    if not (elem role user.roles) then err (http_error 403) else ok (some user)

pub record Request : Type 0 where
  pub method : String
  pub path : String
  pub session : Session
  pub csrf_header : Option String

abbrev pub public_api_paths : List String
public_api_paths =
    "/api/health" ∷ "/api/openapi.json" ∷ "/api/setup/status" ∷ "/api/auth/bootstrap"
    ∷ "/api/auth/login" ∷ []

abbrev pub csrf_exempt_paths : List String
csrf_exempt_paths = "/api/auth/bootstrap" ∷ "/api/auth/login" ∷ []

abbrev pub safe_methods : List String
safe_methods = "GET" ∷ "HEAD" ∷ "OPTIONS" ∷ []

unfoldable pub is_guarded : SecuritySettings → Request → Bool
is_guarded settings request =
    starts_with request.path "/api"
    && not (request.method == "OPTIONS")
    && not settings.demo_no_auth

unfoldable pub is_public : String → Bool
unfolding elem
is_public path =
    elem path public_api_paths || starts_with path "/api/docs" || starts_with path "/api/webhooks"

unfoldable pub needs_token : Request → Bool
unfolding elem
needs_token request =
    not (elem request.method safe_methods)
    && not (elem request.path csrf_exempt_paths || starts_with request.path "/api/webhooks")

-- Both are there, not empty, and equal.
unfoldable pub tokens_match : Option String → Option String → Bool
tokens_match (some expected) (some supplied) =
    not (expected == "") && not (supplied == "") && expected == supplied
tokens_match _ _ = false

abbrev pub is_some_user : Option User → Bool
is_some_user none = false
is_some_user (some u) = true

-- The middleware refuses with a status code, or calls the server on the session.
pub data Verdict : Type 0 where
  refused : ℕ → Session → Verdict
  passed_on : Session → Verdict

unfoldable pub check_token : Request → Verdict
unfolding needs_token tokens_match
check_token request =
    if needs_token request && not (tokens_match request.session.csrf_token request.csrf_header)
    then refused 403 request.session
    else passed_on request.session

unfoldable pub check_user : List User → Request → Verdict
unfolding check_token active_user session_user
check_user users request =
    if is_some_user (active_user (session_user request.session.user_id users))
    then check_token request
    else refused 401 cleared

unfoldable pub dispatch : SecuritySettings → List User → Request → Verdict
unfolding check_user check_token is_guarded is_public
dispatch settings users request =
    if not (is_guarded settings request)
    then passed_on request.session
    else if is_public request.path
    then check_token request
    else check_user users request

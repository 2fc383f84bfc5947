-- ===== src/Security/Routes.antt =====
-- auth_bootstrap, auth_login and auth_logout of main.py. The token that a session is given is drawn
-- at random, and a parameter.
use agenstfer_agi.Base.{
  String, ◌≡◌, refl, sym, ap, Bool, true, false, ◌&&◌, Option, none, some, List, [], ◌∷◌, ◌==◌,
  Result, ok, err, Bool-cases, inl, inr, &&-true,
}
use agenstfer_agi.Security.{User, Accounts, SecuritySettings, Session, cleared, HttpError}
use agenstfer_agi.Security.Users.{
  Credentials, Answer, bootstrap_admin, authenticate, check_password, active_with_email,
  record_audit, start_session, user_at,
}
use agenstfer_agi.Security.Requests.{
  Request, is_guarded, is_public, dispatch, passed_on, tokens_match, current_user, answer_user,
  active_user, session_user,
}
use agenstfer_agi.Security.Guards.{passes_iff}

abbrev pub SessionAnswer : Type 0
SessionAnswer = Accounts × Session × Result HttpError User

abbrev pub bootstrapped_session : String → Session → Answer → SessionAnswer
bootstrapped_session csrf_token session (db, ok user) = (db, start_session csrf_token user, ok user)
bootstrapped_session csrf_token session (db, err e) = (db, session, err e)

unfoldable pub auth_bootstrap :
    (String → String)
    → (String → String)
    → SecuritySettings
    → String
    → String
    → String
    → Credentials
    → Session
    → Accounts
    → SessionAnswer
unfolding bootstrap_admin start_session
auth_bootstrap lower hash settings id csrf_token token payload session db =
    bootstrapped_session csrf_token session
      (bootstrap_admin lower hash settings id token payload db)

unfoldable pub logged_in : String → Session → Accounts → Result HttpError User → SessionAnswer
unfolding start_session
logged_in csrf_token session db (err e) = (db, session, err e)
logged_in csrf_token session db (ok user) = (
  record_audit (some user.id) "auth.login" "session" (some user.id) db,
  start_session csrf_token user,
  ok user,
)

unfoldable pub auth_login :
    (String → String)
    → (String → String → Bool)
    → String
    → String
    → String
    → Session
    → Accounts
    → SessionAnswer
unfolding logged_in authenticate
auth_login lower verify csrf_token email password session db =
    logged_in csrf_token session db (authenticate lower verify email password db)

abbrev pub id_of : Option User → Option String
id_of none = none
id_of (some user) = some user.id

-- The route behind current_user, by its answer.
unfoldable pub auth_logout : Option User → Accounts → Accounts × Session
auth_logout user db = (record_audit (id_of user) "auth.logout" "session" (id_of user) db, cleared)

active_with_email-active :
    (email : String) (us : List User) (u : User)
    → active_with_email email us ≡ some u
    → u.active ≡ true
unfolding active_with_email
active_with_email-active email [] u h = cc
active_with_email-active email (v ∷ us) u h = elim (Bool-cases (v.email == email && v.active)) [
  | inl e ↦
      let h' : some v ≡ some u = simp e at h in
      let same : v ≡ u = cc in rw (← same) (&&-true (v.email == email) v.active e).1
  | inr e ↦ active_with_email-active email us u (simp e at h)
]

check_password-user :
    (verify : String → String → Bool) (password : String) (o : Option User) (u : User)
    → check_password verify password o ≡ ok u
    → o ≡ some u
unfolding check_password
check_password-user verify password none u h = cc
check_password-user verify password (some v) u h =
    elim (Bool-cases (verify v.password_hash password)) [
      | inl e ↦ let h' = simp e at h in cc
      | inr e ↦ absurd (let h' = rw e at h in cc)
    ]

login_user :
    (lower : String → String) (verify : String → String → Bool)
    → (csrf_token email password : String) (session session' : Session) (db db' : Accounts)
      (u : User)
    → auth_login lower verify csrf_token email password session db ≡ (db', session', ok u)
    → (u.active ≡ true) × (session' ≡ start_session csrf_token u) × (db'.users ≡ db.users)
unfolding auth_login logged_in authenticate
login_user lower verify csrf_token email password session session' db db' u h =
    by_answer (authenticate lower verify email password db) refl h
  where
    by_answer :
        (x : Result HttpError User)
        → authenticate lower verify email password db ≡ x
        → logged_in csrf_token session db x ≡ (db', session', ok u)
        → (u.active ≡ true) × (session' ≡ start_session csrf_token u) × (db'.users ≡ db.users)
    by_answer (err e) a k = cc
    by_answer (ok v) a k =
        let same : v ≡ u = cc in
        let found =
          check_password-user verify password (active_with_email (lower email) db.users) v a in
        (
          rw (← same) (active_with_email-active (lower email) db.users v found),
          rw (← same) (sym (ap (λ (y : SessionAnswer). y.1) k)),
          sym (ap (λ (y : SessionAnswer). y.0.users) k),
        )

-- A request that carries a session and a token.
abbrev pub carrying : String → String → Session → String → Request
carrying method path session csrf_token = record {
  method = method;
  path = path;
  session = session;
  csrf_header = some csrf_token;
}

module _ (settings : SecuritySettings) (users : List User) (csrf_token : String) (u : User)
    (own : user_at u.id users ≡ some u) (some_id : (u.id == "") ≡ false)
    (active : u.active ≡ true) where
  current_user-start_session :
      current_user settings users (start_session csrf_token u)
      ≡ (start_session csrf_token u, ok (some u))
  unfolding start_session current_user answer_user session_user active_user
  current_user-start_session = simp (some_id, own, active)

  started_passes :
      (method path : String)
      → (csrf_token == "") ≡ false
      → is_guarded settings (carrying method path (start_session csrf_token u) csrf_token) ≡ true
      → is_public path ≡ false
      → dispatch settings users (carrying method path (start_session csrf_token u) csrf_token)
        ≡ passed_on (start_session csrf_token u)
  unfolding start_session tokens_match
  started_passes method path some_token guarded private_path =
      let request = carrying method path (start_session csrf_token u) csrf_token in
      (passes_iff settings users request guarded private_path).1
        ((u, current_user-start_session), inr (csrf_token, refl, refl, some_token))

-- After a login, a guarded request to a path that is not public, which carries the new session and
-- its token, reaches the server.
pub login_admits :
    (lower : String → String) (verify : String → String → Bool)
    → (csrf_token email password : String) (session session' : Session) (db db' : Accounts)
      (u : User)
    → (settings : SecuritySettings) (method path : String)
    → auth_login lower verify csrf_token email password session db ≡ (db', session', ok u)
    → user_at u.id db.users ≡ some u
    → (u.id == "") ≡ false
    → (csrf_token == "") ≡ false
    → is_guarded settings (carrying method path session' csrf_token) ≡ true
    → is_public path ≡ false
    → dispatch settings db'.users (carrying method path session' csrf_token) ≡ passed_on session'
login_admits lower verify csrf_token email password session session' db db' u settings method path h
      own some_id some_token guarded private_path =
    let (active, session_is, users_are) =
      login_user lower verify csrf_token email password session session' db db' u h in
    let started = simp session_is at guarded in
    simp (session_is, users_are)
      (started_passes settings db.users csrf_token u own some_id active method path some_token
        started private_path)

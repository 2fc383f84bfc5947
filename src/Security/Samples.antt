-- ===== src/Security/Samples.antt =====
-- Two users, and a request of one of them.
use agenstfer_agi.Base.{◌≤◌, String, ◌≡◌, refl, ◌↔◌, Bool, false, some, [], ◌∷◌, ◌==◌, ok, err}
use agenstfer_agi.Base.Sets.{elem, add_new}
use agenstfer_agi.Base.Sort.{sorted}
use agenstfer_agi.Security.{User, Accounts, SecuritySettings, Session, cleared, http_error}
use agenstfer_agi.Security.Routes.{auth_login, logged_in, carrying, login_admits}
use agenstfer_agi.Security.Users.{
  Credentials, bootstrap_admin, create_user, user_create, user_roles_update, user_at, active_admins,
  role_list, email_taken, new_user, all_roles, record_audit, authenticate, check_password,
  active_with_email, start_session,
}
use agenstfer_agi.Security.Admins.{
  Changes, none_yet, one_more, updated, created, admin_remains, login_of_created,
}
use agenstfer_agi.Security.Requests.{
  Request, is_guarded, is_public, dispatch, passed_on, current_user, require_role, answer_user,
  active_user, session_user,
}
use agenstfer_agi.Security.Guards.{Admitted, Entitled, passes_iff, role_granted}

abbrev same : String → String
same s = s

abbrev settings : SecuritySettings
settings = record { demo_no_auth = false; bootstrap_token = "t" }

abbrev ada : Credentials
ada = record { email = "ada@example.org"; name = "Ada"; password = "a long password" }

abbrev bob : Credentials
bob = record { email = "bob@example.org"; name = "Bob"; password = "another password" }

abbrev empty : Accounts
empty = record { users = []; audit = [] }

abbrev first_user : User
first_user = new_user same same "u1" ada all_roles

abbrev begun : Accounts
begun =
    record_audit (some "u1") "auth.bootstrap" "user" (some "u1")
      (record { users = first_user ∷ []; audit = [] })

-- The second user is created, and the first one tries to leave.
abbrev later : Accounts
later = (user_create same same (some "u1") "u2" bob ("analyst" ∷ []) begun).0

abbrev latest : Accounts
latest = (user_roles_update (some "u1") "u1" ("analyst" ∷ []) false later).0

two_requests : Changes same same begun latest
two_requests =
    one_more (one_more (none_yet begun) (created (some "u1") "u2" bob ("analyst" ∷ []) begun))
      (updated (some "u1") "u1" ("analyst" ∷ []) false later)

begun_lem : bootstrap_admin same same settings "u1" "t" ada empty ≡ (begun, ok first_user)
unfolding bootstrap_admin
begun_lem = refl

admin_remains_example :
    (1 ≤ active_admins latest.users)
    × (bootstrap_admin same same settings "u3" "t" bob latest ≡ (latest, err (http_error 409)))
admin_remains_example =
    admin_remains same same settings settings "u1" "u3" "t" "t" ada bob empty begun latest
      first_user begun_lem two_requests

abbrev verify : String → String → Bool
verify hash password = hash == password

abbrev analyst : User
analyst = new_user same same "u2" bob ("analyst" ∷ [])

login_of_created_example :
    authenticate same verify "bob@example.org" "another password"
      (record begun { users = first_user ∷ analyst ∷ [] })
    ≡ ok analyst
unfolding create_user email_taken role_list add_new sorted elem
login_of_created_example =
    login_of_created same same verify "u2" bob ("analyst" ∷ "analyst" ∷ []) begun
      (record begun { users = first_user ∷ analyst ∷ [] }) analyst refl refl

abbrev session : Session
session = record { user_id = some "u1"; csrf_token = some "c" }

abbrev request : Request
request = record { method = "POST"; path = "/api/users"; session = session; csrf_header = some "c" }

passes_iff_example :
    (dispatch settings begun.users request ≡ passed_on session)
    ↔ Admitted settings begun.users request
unfolding is_guarded is_public elem
passes_iff_example = passes_iff settings begun.users request refl refl

role_granted_example : Entitled "admin" settings begun.users session (some first_user)
unfolding current_user require_role answer_user active_user session_user user_at elem
role_granted_example = role_granted "admin" settings begun.users session (some first_user) refl

login_admits_example :
    dispatch settings begun.users (carrying "PUT" "/api/users" session "c") ≡ passed_on session
unfolding auth_login logged_in authenticate check_password active_with_email start_session user_at
    is_guarded is_public elem
login_admits_example =
    login_admits same verify "c" "ada@example.org" "a long password" cleared session begun
      (record_audit (some "u1") "auth.login" "session" (some "u1") begun) first_user settings "PUT"
      "/api/users" refl refl refl refl refl refl

-- ===== src/Security/Users.antt =====
-- The users table: security.py, and user_create and user_roles_update of main.py without the role
-- of the caller.
use agenstfer_agi.Base.{
  ℕ, suc, String, Bool, true, false, ◌&&◌, ◌||◌, not, Option, none, some, List, [], ◌∷◌, ◌++◌, ◌==◌,
  leb, if◌then◌else◌, Result, ok, err, is_empty,
}
use agenstfer_agi.Base.Sets.{elem, add_new}
use agenstfer_agi.Base.Sort.{sorted}
use agenstfer_agi.Security.{User, Accounts, SecuritySettings, Session, HttpError, http_error}

pub record Credentials : Type 0 where
  pub email : String
  pub name : String
  pub password : String

abbrev pub Answer : Type 0
Answer = Accounts × Result HttpError User

-- `db.get(User, id)`
unfoldable pub user_at : String → List User → Option User
user_at id [] = none
user_at id (u ∷ us) = if u.id == id then some u else user_at id us

-- The query on the address alone.
unfoldable pub email_taken : String → List User → Bool
email_taken email [] = false
email_taken email (u ∷ us) = u.email == email || email_taken email us

-- The query on the address, of the users that are active.
unfoldable pub active_with_email : String → List User → Option User
active_with_email email [] = none
active_with_email email (u ∷ us) =
    if u.email == email && u.active then some u else active_with_email email us

unfoldable pub set_user : User → List User → List User
set_user user [] = []
set_user user (u ∷ us) = if u.id == user.id then user ∷ us else u ∷ set_user user us

abbrev pub record_audit : Option String → String → String → Option String → Accounts → Accounts
record_audit actor_id action target_type target_id db = record db {
  audit =
      db.audit
      ++ record {
        actor_id = actor_id;
        action = action;
        target_type = target_type;
        target_id = target_id;
      }
        ∷ [];
}

abbrev pub all_roles : List String
all_roles = "admin" ∷ "analyst" ∷ "approver" ∷ []

-- `sorted(set(roles))`
unfoldable pub role_list : List String → List String
unfolding add_new sorted
role_list roles = sorted (add_new [] roles)

unfoldable pub is_admin : User → Bool
unfolding elem
is_admin u = elem "admin" u.roles

-- The active users that have the role "admin".
unfoldable pub active_admins : List User → ℕ
unfolding is_admin
active_admins [] = 0
active_admins (u ∷ us) =
    let rest = active_admins us in if u.active && is_admin u then suc rest else rest

unfoldable pub start_session : String → User → Session
start_session token user = record { user_id = some user.id; csrf_token = some token }

module _ (lower hash : String → String) where
  abbrev pub new_user : String → Credentials → List String → User
  new_user id payload roles = record {
    id = id;
    email = lower payload.email;
    name = payload.name;
    password_hash = hash payload.password;
    roles = roles;
    active = true;
  }

  unfoldable pub bootstrap_admin :
      SecuritySettings → String → String → Credentials → Accounts → Answer
  bootstrap_admin settings id token payload db =
      let user = new_user id payload all_roles in
      if not (is_empty db.users)
      then (db, err (http_error 409))
      else if not (token == settings.bootstrap_token)
      then (db, err (http_error 403))
      else (
        record_audit (some user.id) "auth.bootstrap" "user" (some user.id)
            (record db { users = db.users ++ user ∷ [] }),
        ok user,
      )

  unfoldable pub create_user : String → Credentials → List String → Accounts → Answer
  unfolding email_taken role_list
  create_user id payload roles db =
      if email_taken (lower payload.email) db.users
      then (db, err (http_error 409))
      else let user = new_user id payload (role_list roles) in
        (record db { users = db.users ++ user ∷ [] }, ok user)

  abbrev audited : Option String → Answer → Answer
  audited actor_id (db, ok user) =
      (record_audit actor_id "user.created" "user" (some user.id) db, ok user)
  audited actor_id (db, err e) = (db, err e)

  -- The route behind its role, by the actor's id.
  unfoldable pub user_create :
      Option String → String → Credentials → List String → Accounts → Answer
  unfolding create_user
  user_create actor_id id payload roles db = audited actor_id (create_user id payload roles db)

abbrev pub removes_admin : User → List String → Bool → Bool
unfolding is_admin
removes_admin user roles active = is_admin user && (not (elem "admin" roles) || not active)

unfoldable pub update_found : Option String → Option User → List String → Bool → Accounts → Answer
unfolding active_admins role_list set_user elem
update_found actor_id none roles active db = (db, err (http_error 404))
update_found actor_id (some user) roles active db =
    let user' = record user { roles = role_list roles; active = active } in
    if removes_admin user roles active && leb (active_admins db.users) 1
    then (db, err (http_error 409))
    else (
      record_audit actor_id "user.roles_updated" "user" (some user.id)
          (record db { users = set_user user' db.users }),
      ok user',
    )

unfoldable pub user_roles_update : Option String → String → List String → Bool → Accounts → Answer
unfolding update_found user_at
user_roles_update actor_id user_id roles active db =
    update_found actor_id (user_at user_id db.users) roles active db

-- The password of a stored user is checked by the hasher's `verify`, whose exception is `false`.
unfoldable pub check_password :
    (String → String → Bool) → String → Option User → Result HttpError User
check_password verify password none = err (http_error 401)
check_password verify password (some user) =
    if verify user.password_hash password then ok user else err (http_error 401)

unfoldable pub authenticate :
    (String → String)
    → (String → String → Bool)
    → String
    → String
    → Accounts
    → Result HttpError User
unfolding check_password active_with_email
authenticate lower verify email password db =
    check_password verify password (active_with_email (lower email) db.users)

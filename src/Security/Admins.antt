-- ===== src/Security/Admins.antt =====
-- The users that sequences of requests leave behind.
pub mod Count
use agenstfer_agi.Base.{
  ℕ, zero, suc, ◌+◌, ◌≤◌, String, ◌≡◌, refl, sym, ap, ◌∙◌, Bool, true, false, ◌&&◌, ◌||◌, not,
  Option, none, some, List, [], ◌∷◌, ◌++◌, ◌==◌, leb, if◌then◌else◌, arith, Bool-cases,
  Option-cases, inl, inr, Result, ok, err, is_empty, eq_refl, eq_iff,
}
use agenstfer_agi.Base.Sets.{elem, add_new, elem-add_new}
use agenstfer_agi.Base.Sort.{elem-sorted}
use agenstfer_agi.Security.{User, Accounts, SecuritySettings, HttpError, http_error}
use agenstfer_agi.Security.Users.{
  Credentials, Answer, user_at, email_taken, active_with_email, set_user, role_list, is_admin,
  active_admins, new_user, all_roles, bootstrap_admin, create_user, user_create, removes_admin,
  update_found, user_roles_update, check_password, authenticate,
}
use agenstfer_agi.Security.Admins.Count.{
  active_admins-append, active_admins-set_user, user_at-id, weight-kept, not_empty,
}

module _ (lower hash : String → String) where
  -- The requests that change the users, with the result of each.
  pub data Change : Accounts → Accounts → Type 0 where
    bootstrapped :
        (settings : SecuritySettings) (id token : String) (payload : Credentials) (db : Accounts)
        → Change db (bootstrap_admin lower hash settings id token payload db).0
    created :
        (actor_id : Option String) (id : String) (payload : Credentials) (roles : List String)
        → (db : Accounts) → Change db (user_create lower hash actor_id id payload roles db).0
    updated :
        (actor_id : Option String) (user_id : String) (roles : List String) (active : Bool)
        → (db : Accounts) → Change db (user_roles_update actor_id user_id roles active db).0

  pub data Changes : Accounts → Accounts → Type 0 where
    none_yet : (db : Accounts) → Changes db db
    one_more : {db db' db'' : Accounts} → Changes db db' → Change db' db'' → Changes db db''

  update_keeps :
      (actor_id : Option String) (o : Option User) (roles : List String) (active : Bool)
      (db : Accounts)
      → (user_id : String) → user_at user_id db.users ≡ o
      → 1 ≤ active_admins db.users
      → 1 ≤ active_admins (update_found actor_id o roles active db).0.users
  unfolding update_found
  update_keeps actor_id none roles active db user_id h some_admin = some_admin
  update_keeps actor_id (some user) roles active db user_id h some_admin =
      elim (Bool-cases (removes_admin user roles active && leb (active_admins db.users) 1)) [
        | inl e ↦ rw e some_admin
        | inr e ↦
            let user' : User = record user { roles = role_list roles; active = active } in
            let found = rw (sym (user_at-id user_id db.users user h)) at h in
            rw e (
              weight-kept user roles active (active_admins db.users) _ e some_admin
                (active_admins-set_user user user' db.users found refl))
      ]

  bootstrap_refused :
      (settings : SecuritySettings) (id token : String) (payload : Credentials) (db : Accounts)
      → 1 ≤ active_admins db.users
      → bootstrap_admin lower hash settings id token payload db ≡ (db, err (http_error 409))
  unfolding bootstrap_admin
  bootstrap_refused settings id token payload db some_admin =
      let there : is_empty db.users ≡ false = not_empty db.users some_admin in rw there refl

  create_keeps :
      (actor_id : Option String) (id : String) (payload : Credentials) (roles : List String)
      (db : Accounts)
      → 1 ≤ active_admins db.users
      → 1 ≤ active_admins (user_create lower hash actor_id id payload roles db).0.users
  unfolding user_create create_user
  create_keeps actor_id id payload roles db some_admin =
      elim (Bool-cases (email_taken (lower payload.email) db.users)) [
        | inl e ↦ rw e some_admin
        | inr e ↦ rw (e, active_admins-append) (omega arith)
      ]

  Change-keeps :
      {db db' : Accounts} → Change db db' → 1 ≤ active_admins db.users → 1 ≤ active_admins db'.users
  unfolding user_roles_update
  Change-keeps (bootstrapped settings id token payload db) h =
      rw (bootstrap_refused settings id token payload db h) h
  Change-keeps (created actor_id id payload roles db) h =
      create_keeps actor_id id payload roles db h
  Change-keeps (updated actor_id user_id roles active db) h =
      update_keeps actor_id (user_at user_id db.users) roles active db user_id refl h

  Changes-keeps :
      {db db' : Accounts}
      → Changes db db'
      → 1 ≤ active_admins db.users
      → 1 ≤ active_admins db'.users
  Changes-keeps (none_yet db) h = h
  Changes-keeps (one_more before last) h = Change-keeps last (Changes-keeps before h)

  first_admin :
      (settings : SecuritySettings) (id token : String) (payload : Credentials) (db db' : Accounts)
      (u : User)
      → bootstrap_admin lower hash settings id token payload db ≡ (db', ok u)
      → 1 ≤ active_admins db'.users
  unfolding bootstrap_admin is_admin
  first_admin settings id token payload db db' u h =
      let own = new_user lower hash id payload all_roles in
      elim (Bool-cases (is_empty db.users)) [
        | inl e ↦ elim (Bool-cases (token == settings.bootstrap_token)) [
          | inl t ↦
              let h' = rw (e, t) at h in
              let users_are : db.users ++ own ∷ [] ≡ db'.users =
                ap (λ (y : Answer). y.0.users) h' in
              rw (← users_are, active_admins-append) (omega arith)
          | inr t ↦ absurd (let h' = rw (e, t) at h in cc)
        ]
        | inr e ↦ absurd (let h' = rw e at h in cc)
      ]

  -- After the first administrator was made, whatever users are created and whatever roles are
  -- changed, there is an active administrator, and no request makes a first one again.
  pub admin_remains :
      (settings settings' : SecuritySettings) (id id' token token' : String)
      → (payload payload' : Credentials) (db db' db'' : Accounts) (u : User)
      → bootstrap_admin lower hash settings id token payload db ≡ (db', ok u)
      → Changes db' db''
      → (1 ≤ active_admins db''.users)
        × (bootstrap_admin lower hash settings' id' token' payload' db''
            ≡ (db'', err (http_error 409)))
  admin_remains settings settings' id id' token token' payload payload' db db' db'' u h changes =
      let kept = Changes-keeps changes (first_admin settings id token payload db db' u h) in
      (kept, bootstrap_refused settings' id' token' payload' db'' kept)

  active_with_email-append :
      (us : List User) (u : User) (email : String)
      → email_taken email us ≡ false
      → u.email ≡ email
      → u.active ≡ true
      → active_with_email email (us ++ u ∷ []) ≡ some u
  unfolding active_with_email email_taken
  active_with_email-append [] u email free own active = rw (own, eq_refl email, active) refl
  active_with_email-append (v ∷ us) u email free own active =
      ground (arith, active_with_email-append us u email)

  -- A user that was created logs in with the address and the password of the request, if `verify`
  -- accepts a password for its own hash.
  pub login_of_created :
      (verify : String → String → Bool) (id : String) (payload : Credentials) (roles : List String)
      → (db db' : Accounts) (u : User) → verify (hash payload.password) payload.password ≡ true
      → create_user lower hash id payload roles db ≡ (db', ok u)
      → authenticate lower verify payload.email payload.password db' ≡ ok u
  unfolding create_user authenticate check_password
  login_of_created verify id payload roles db db' u own h =
      let user = new_user lower hash id payload (role_list roles) in
      elim (Bool-cases (email_taken (lower payload.email) db.users)) [
        | inl e ↦ absurd (let h' = rw e at h in cc)
        | inr e ↦
            let h' = rw e at h in
            let users_are : db.users ++ user ∷ [] ≡ db'.users = ap (λ (y : Answer). y.0.users) h' in
            let user_is : user ≡ u = cc in
            rw
              (
                ← users_are,
                active_with_email-append db.users user (lower payload.email) e refl refl,
                own,
              )
              (ap ok user_is)
      ]

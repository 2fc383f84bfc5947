-- ===== src/Security/Guards.antt =====
-- What a request has to have to reach the server.
use agenstfer_agi.Base.{
  ℕ, String, ◌≡◌, ◌↔◌, ◌⊎◌, refl, sym, ap, Bool, true, false, ◌&&◌, ◌||◌, not, Option, none, some,
  List, [], ◌∷◌, ◌==◌, if◌then◌else◌, ok, Bool-cases, inl, inr, arith, eq_iff, eq_refl, starts_with,
}
use agenstfer_agi.Base.Sets.{elem}
use agenstfer_agi.Security.{User, SecuritySettings, Session, cleared}
use agenstfer_agi.Security.Users.{user_at}
use agenstfer_agi.Security.Requests.{
  session_user, active_user, no_user, answer_user, current_user, require_role, Request, is_guarded,
  is_public, csrf_exempt_paths, needs_token, tokens_match, Verdict, refused, passed_on, check_token,
  check_user, dispatch, is_some_user,
}

-- The request carries the token of its session.
abbrev pub CarriesToken : Option String → Option String → Type 0
CarriesToken expected supplied =
    (t : String) × (expected ≡ some t) × (supplied ≡ some t) × ((t == "") ≡ false)

-- The session's user is there and active, and the method is a safe one or the token is carried.
abbrev pub Admitted : SecuritySettings → List User → Request → Type 0
Admitted settings users request =
    ((u : User) × (current_user settings users request.session ≡ (request.session, ok (some u))))
    × ((elem request.method ("GET" ∷ "HEAD" ∷ "OPTIONS" ∷ []) ≡ true)
        ⊎ CarriesToken request.session.csrf_token request.csrf_header)

match_iff :
    (expected supplied : Option String)
    → (tokens_match expected supplied ≡ true) ↔ CarriesToken expected supplied
unfolding tokens_match
match_iff none supplied = ((λ h. cc), λ (t, e, f, n). cc)
match_iff (some a) none = ((λ h. cc), λ (t, e, f, n). cc)
match_iff (some a) (some b) = (
  (λ h.
      let same : a ≡ b = ground (arith, eq_iff a b) in (a, refl, ap some (sym same), ground arith)),
  λ (t, e, f, n).
      let a_is : a ≡ t = cc in let b_is : b ≡ t = cc in rw (a_is, b_is, n, eq_refl t) refl,
)

no_exemption :
    (path : String)
    → is_public path ≡ false
    → (elem path csrf_exempt_paths || starts_with path "/api/webhooks") ≡ false
unfolding is_public elem
no_exemption path h = ground arith

safe_or :
    (safe matches : Bool) (P : Type 0)
    → (matches ≡ true) ↔ P
    → (((not safe && true) && not matches) ≡ false) ↔ ((safe ≡ true) ⊎ P)
safe_or true matches P m = ((λ h. inl refl), λ h. refl)
safe_or false true P m = ((λ h. inr (m.0 refl)), λ h. refl)
safe_or false false P m = ((λ h. cc), λ h. elim h [ inl e ↦ cc | inr p ↦ let never = m.1 p in cc ])

token_iff :
    (request : Request)
    → is_public request.path ≡ false
    → ((needs_token request && not (tokens_match request.session.csrf_token request.csrf_header))
        ≡ false)
      ↔ ((elem request.method ("GET" ∷ "HEAD" ∷ "OPTIONS" ∷ []) ≡ true)
          ⊎ CarriesToken request.session.csrf_token request.csrf_header)
unfolding needs_token
token_iff request private_path =
    let m = match_iff request.session.csrf_token request.csrf_header in
    rw (no_exemption request.path private_path) (safe_or _ _ _ m)

refused_or :
    (b : Bool) (code : ℕ) (s s' : Session)
    → ((if b then refused code s else passed_on s') ≡ passed_on s') ↔ (b ≡ false)
refused_or true code s s' = ((λ h. cc), λ h. cc)
refused_or false code s s' = ((λ h. refl), λ h. refl)

iff_trans : {P Q R : Type 0} → P ↔ Q → Q ↔ R → P ↔ R
iff_trans p q = ((λ x. q.0 (p.0 x)), λ y. p.1 (q.1 y))

both_iff :
    (b : Bool) (P Q : Type 0) (v : Verdict) (s s' : Session)
    → (b ≡ true) ↔ P
    → (v ≡ passed_on s) ↔ Q
    → ((if b then v else refused 401 s') ≡ passed_on s) ↔ (P × Q)
both_iff true P Q v s s' p q = ((λ h. (p.0 refl, q.0 h)), λ (x, y). q.1 y)
both_iff false P Q v s s' p q = ((λ h. cc), λ (x, y). let never = p.1 x in cc)

user_iff :
    (settings : SecuritySettings) (session : Session) (o : Option User)
    → settings.demo_no_auth ≡ false
    → (is_some_user o ≡ true)
      ↔ ((u : User) × (answer_user settings session o ≡ (session, ok (some u))))
unfolding answer_user no_user
user_iff settings session none real = ((λ h. cc), λ (u, h). let h' = rw real at h in cc)
user_iff settings session (some u) real = ((λ h. (u, refl)), λ h. refl)

real_auth :
    (settings : SecuritySettings) (request : Request)
    → is_guarded settings request ≡ true
    → settings.demo_no_auth ≡ false
unfolding is_guarded
real_auth settings request h = ground arith

-- A guarded request to a path that is not public reaches the server just when current_user answers
-- with a user and the method is GET, HEAD or OPTIONS or the request carries the session's token.
pub passes_iff :
    (settings : SecuritySettings) (users : List User) (request : Request)
    → is_guarded settings request ≡ true
    → is_public request.path ≡ false
    → (dispatch settings users request ≡ passed_on request.session)
      ↔ Admitted settings users request
unfolding dispatch check_user check_token current_user
passes_iff settings users request guarded private_path =
    let o = active_user (session_user request.session.user_id users) in
    let reaches =
      both_iff (is_some_user o)
        ((u : User) × (answer_user settings request.session o ≡ (request.session, ok (some u))))
        ((elem request.method ("GET" ∷ "HEAD" ∷ "OPTIONS" ∷ []) ≡ true)
          ⊎ CarriesToken request.session.csrf_token request.csrf_header)
        (check_token request) request.session cleared
        (user_iff settings request.session o (real_auth settings request guarded))
        (iff_trans (refused_or _ 403 request.session request.session)
          (token_iff request private_path)) in
    rw (guarded, private_path) reaches

session_user-found :
    (o : Option String) (users : List User) (u : User)
    → session_user o users ≡ some u
    → (id : String) × (o ≡ some id) × (user_at id users ≡ some u)
unfolding session_user
session_user-found none users u h = cc
session_user-found (some id) users u h = elim (Bool-cases (id == "")) [
  | inl e ↦ absurd (let h' = rw e at h in cc)
  | inr e ↦ (id, refl, rw e at h)
]

active_user-found :
    (o : Option User) (u : User) → active_user o ≡ some u → (o ≡ some u) × (u.active ≡ true)
unfolding active_user
active_user-found none u h = cc
active_user-found (some v) u h = elim (Bool-cases v.active) [
  | inl e ↦
      let h' : some v ≡ some u = simp e at h in
      let same : v ≡ u = cc in (ap some same, rw (← same) e)
  | inr e ↦ absurd (let h' = rw e at h in cc)
]

granted_user :
    (role : String) (settings : SecuritySettings) (session : Session) (o : Option User) (u : User)
    → require_role role settings (answer_user settings session o).1 ≡ ok (some u)
    → (o ≡ some u) × (elem role u.roles ≡ true)
unfolding require_role answer_user no_user
granted_user role settings session none u h = elim (Bool-cases settings.demo_no_auth) [
  | inl e ↦ absurd (let h' = rw e at h in cc)
  | inr e ↦ absurd (let h' = rw e at h in cc)
]
granted_user role settings session (some v) u h = elim (Bool-cases (elem role v.roles)) [
  | inl e ↦ let h' = simp e at h in let same : v ≡ u = cc in (ap some same, rw (← same) e)
  | inr e ↦ absurd (let h' = rw e at h in cc)
]

-- Without a user a role is granted in demo mode only.
granted_none :
    (role : String) (settings : SecuritySettings) (session : Session) (o : Option User)
    → require_role role settings (answer_user settings session o).1 ≡ ok none
    → (settings.demo_no_auth ≡ true) × (o ≡ none)
unfolding require_role answer_user no_user
granted_none role settings session none h = elim (Bool-cases settings.demo_no_auth) [
  | inl e ↦ (e, refl)
  | inr e ↦ absurd (let h' = rw e at h in cc)
]
granted_none role settings session (some v) h = elim (Bool-cases (elem role v.roles)) [
  | inl e ↦ absurd (let h' = rw e at h in cc)
  | inr e ↦ absurd (let h' = rw e at h in cc)
]

-- What entitles a request to a role: for a user, to have it, to be active and to be the one that
-- the session names; for no user, the demo mode and a session without an active user.
abbrev pub Entitled : String → SecuritySettings → List User → Session → Option User → Type 0
Entitled role settings users session none =
    (settings.demo_no_auth ≡ true) × (active_user (session_user session.user_id users) ≡ none)
Entitled role settings users session (some u) =
    (elem role u.roles ≡ true)
    × (u.active ≡ true)
    × ((id : String) × (session.user_id ≡ some id) × (user_at id users ≡ some u))

-- A request to which a role is granted is entitled to it: its user has the role, is active and is
-- the one that the session names, or there is no user, in demo mode, as the session names no active
-- one.
pub role_granted :
    (role : String) (settings : SecuritySettings) (users : List User) (session : Session)
    (who : Option User)
    → require_role role settings (current_user settings users session).1 ≡ ok who
    → Entitled role settings users session who
unfolding current_user
role_granted role settings users session none h =
    granted_none role settings session (active_user (session_user session.user_id users)) h
role_granted role settings users session (some u) h =
    let o = session_user session.user_id users in
    let (is_u, has_role) = granted_user role settings session (active_user o) u h in
    let (found, active) = active_user-found o u is_u in
    (has_role, active, session_user-found session.user_id users u found)

-- ===== src/Security/Admins/Count.antt =====
-- The number of active administrators in a table.
use agenstfer_agi.Base.{
  ℕ, ◌+◌, ◌≤◌, String, ◌≡◌, refl, ap, ◌∙◌, Bool, true, false, ◌&&◌, some, List, [], ◌∷◌, ◌++◌, ◌==◌,
  leb, if◌then◌else◌, arith, Bool-cases, inl, inr, is_empty, eq_iff,
}
use agenstfer_agi.Base.Sets.{elem, add_new, elem-add_new}
use agenstfer_agi.Base.Sort.{elem-sorted}
use agenstfer_agi.Security.{User}
use agenstfer_agi.Security.Users.{
  user_at, set_user, role_list, is_admin, active_admins, removes_admin,
}

abbrev pub weight : User → ℕ
weight u = if u.active && is_admin u then 1 else 0

pub active_admins-append :
    (us : List User) (u : User) → active_admins (us ++ u ∷ []) ≡ active_admins us + weight u
unfolding active_admins
active_admins-append [] u = ground arith
active_admins-append (v ∷ us) u = ground (arith, active_admins-append us u)

active_admins-cons :
    (v : User) (us : List User) → active_admins (v ∷ us) ≡ weight v + active_admins us
unfolding active_admins
active_admins-cons v us = ground arith

module _ (u u' : User) where
  active_admins-set_if :
      (b : Bool) (v : User) (us rest : List User)
      → (if b then some v else user_at u.id us) ≡ some u
      → (user_at u.id us ≡ some u → active_admins rest + weight u ≡ active_admins us + weight u')
      → active_admins (if b then u' ∷ us else v ∷ rest) + weight u
        ≡ active_admins (v ∷ us) + weight u'
  active_admins-set_if true v us rest h next =
      let v_is : v ≡ u = cc in rw (active_admins-cons, active_admins-cons, v_is) (omega arith)
  active_admins-set_if false v us rest h next =
      let e = next h in rw (active_admins-cons, active_admins-cons) (omega arith)

  pub active_admins-set_user :
      (us : List User)
      → user_at u.id us ≡ some u
      → u'.id ≡ u.id
      → active_admins (set_user u' us) + weight u ≡ active_admins us + weight u'
  unfolding set_user user_at
  active_admins-set_user [] h same = cc
  active_admins-set_user (v ∷ us) h same =
      let tests : (v.id == u'.id) ≡ (v.id == u.id) = ap (λ i. v.id == i) same in
      rw tests (
        active_admins-set_if (v.id == u.id) v us (set_user u' us) h
          (λ k. active_admins-set_user us k same))

pub user_at-id : (id : String) (us : List User) (u : User) → user_at id us ≡ some u → u.id ≡ id
unfolding user_at
user_at-id id [] u h = cc
user_at-id id (v ∷ us) u h = elim (Bool-cases (v.id == id)) [
  | inl e ↦
      let h' : some v ≡ some u = rw e at h in
      let v_is : v ≡ u = cc in rw (← v_is) ((eq_iff v.id id).0 e)
  | inr e ↦ user_at-id id us u (rw e at h)
]

elem-role_list : (r : String) (roles : List String) → elem r (role_list roles) ≡ elem r roles
unfolding role_list elem
elem-role_list r roles = elem-sorted r (add_new [] roles) ∙ elem-add_new r [] roles

-- An update that takes the role from nobody, or from one of several.
pub weight-kept :
    (u : User) (roles : List String) (active : Bool) (n m : ℕ)
    → removes_admin u roles active && leb n 1 ≡ false
    → 1 ≤ n
    → m + weight u ≡ n + weight (record u { roles = role_list roles; active = active })
    → 1 ≤ m
unfolding is_admin
weight-kept u roles active n m h some_admin e = ground (arith, elem-role_list "admin" roles)

pub not_empty : (us : List User) → 1 ≤ active_admins us → is_empty us ≡ false
unfolding active_admins
not_empty [] h = absurd (omega arith)
not_empty (u ∷ us) h = refl

-- ===== src/Policy/Cloud.antt =====
-- The classification of a scope, and the refusal of cloud models.
use agenstfer_agi.Base.{
  String, ◌≡◌, refl, ◌↔◌, Bool, true, ◌||◌, List, [], ◌∷◌, ◌++◌, ◌==◌, eq_iff, arith, ltb, leb, all,
  any, Bool-cases, inl, inr, ok, err,
}
use agenstfer_agi.Base.Dict.{get}
use agenstfer_agi.Policy.{
  PolicyError, rank, level, is_known, highest, highest_or_internal, classify_model_data_scope,
  is_protected, enforce_cloud_data_policy,
}

protected_level : (c : String) → is_known c ≡ true → is_protected c ≡ leb 2 (level c)
unfolding rank get level is_known is_protected
protected_level c k = elim (Bool-cases ("public" == c)) [
  | inl e ↦ let p : "public" ≡ c = ground (arith, eq_iff "public" c) in rw (← p) refl
  | inr e ↦ elim (Bool-cases ("internal" == c)) [
    | inl f ↦ let p : "internal" ≡ c = ground (arith, eq_iff "internal" c) in rw (← p) refl
    | inr f ↦ elim (Bool-cases ("confidential" == c)) [
      | inl g ↦
          let p : "confidential" ≡ c = ground (arith, eq_iff "confidential" c) in rw (← p) refl
      | inr g ↦ elim (Bool-cases ("restricted" == c)) [
        | inl h ↦ let p : "restricted" ≡ c = ground (arith, eq_iff "restricted" c) in rw (← p) refl
        | inr h ↦ absurd (cc)
      ]
    ]
  ]
]

high : String → Bool
high c = leb 2 (level c)

highest-known :
    (best : String) (cs : List String)
    → is_known best ≡ true
    → all is_known cs ≡ true
    → is_known (highest best cs) ≡ true
unfolding highest
highest-known best [] k ks = k
highest-known best (c ∷ cs) k ks = elim (Bool-cases (ltb (level best) (level c))) [
  | inl e ↦ rw e (highest-known c cs (ground arith) (ground arith))
  | inr e ↦ rw e (highest-known best cs k (ground arith))
]

highest-protected :
    (best : String) (cs : List String)
    → is_known best ≡ true
    → all is_known cs ≡ true
    → is_protected (highest best cs) ≡ (is_protected best || any is_protected cs)
unfolding highest
highest-protected best [] k ks = ground arith
highest-protected best (c ∷ cs) k ks = elim (Bool-cases (ltb (level best) (level c))) [
  | inl e ↦
      rw (e, highest-protected c cs (ground arith) (ground arith))
        (ground (arith, protected_level best k, protected_level c))
  | inr e ↦
      rw (e, highest-protected best cs k (ground arith))
        (ground (arith, protected_level best k, protected_level c))
]

scope-known : (cs : List String) → all is_known cs ≡ true → is_known (highest_or_internal cs) ≡ true
unfolding highest_or_internal is_known rank get
scope-known [] k = refl
scope-known (c ∷ cs) k = highest-known c cs (ground arith) (ground arith)

scope-protected :
    (cs : List String)
    → all is_known cs ≡ true
    → is_protected (highest_or_internal cs) ≡ any is_protected cs
unfolding highest_or_internal is_protected
scope-protected [] k = refl
scope-protected (c ∷ cs) k = highest-protected c cs (ground arith) (ground arith)

-- Once a scope is classified, a cloud model is refused exactly if some item of the scope is
-- confidential or restricted.
pub cloud_refused_iff :
    (evidence entities : List String) (classification : String)
    → classify_model_data_scope evidence entities ≡ ok classification
    → (enforce_cloud_data_policy classification true ≡ err PolicyError.permission_error)
      ↔ (any is_protected (evidence ++ entities) ≡ true)
unfolding classify_model_data_scope enforce_cloud_data_policy
cloud_refused_iff evidence entities classification h =
    let cs = evidence ++ entities in
    elim (Bool-cases (all is_known cs)) [
      | inl e ↦
          let same : highest_or_internal cs ≡ classification = cc in
          let known : is_known classification ≡ true = rw (← same) (scope-known cs e) in
          let protected : is_protected classification ≡ any is_protected cs =
            rw (← same) (scope-protected cs e) in
          (λ p. ground (arith, known, protected), λ p. ground (arith, known, protected))
      | inr e ↦ absurd (cc)
    ]

-- ===== src/Evidence/Batches/Bounds.antt =====
-- The contents and the size of the review batches.
use mathlib.Core.List.{append_assoc, append-nil}
use agenstfer_agi.Base.{
  ◌≤◌, String, ◌≡◌, refl, ◌∙◌, ap, true, false, ◌⊎◌, inl, inr, List, [], ◌∷◌, ◌++◌, arith, length,
  length-append, All, Bool-cases,
}
use agenstfer_agi.Base.Sets.{add_new, unique, add_new-append}
use agenstfer_agi.Evidence.Contracts.{MaterialClaim}
use agenstfer_agi.Evidence.Batches.{
  batch_size, batch_evidence_limit, closes, batches_from, evidence_review_batches,
}

-- All evidence ids that the claims cite, in order.
abbrev pub cited : List MaterialClaim → List String
cited [] = []
cited (c ∷ cs) = c.evidence_ids ++ cited cs

-- The batches one after another.
abbrev pub joined : List (List MaterialClaim) → List MaterialClaim
joined [] = []
joined (b ∷ bs) = b ++ joined bs

pub record IsBatch (b : List MaterialClaim) : Type 0 where
  pub nonempty : 1 ≤ length b
  pub small : length b ≤ batch_size
  pub bounded : (length b ≡ 1) ⊎ (length (unique (cited b)) ≤ batch_evidence_limit)

cited-append : (xs ys : List MaterialClaim) → cited (xs ++ ys) ≡ cited xs ++ cited ys
cited-append [] ys = refl
cited-append (x ∷ xs) ys = rw (cited-append xs ys) (rw append_assoc refl)

unique-snoc :
    (current : List MaterialClaim) (c : MaterialClaim)
    → unique (cited (current ++ c ∷ [])) ≡ add_new (unique (cited current)) c.evidence_ids
unfolding unique
unique-snoc current c =
    ap (add_new []) (cited-append current (c ∷ []))
    ∙ add_new-append [] (cited current) (c.evidence_ids ++ [])
    ∙ rw append-nil refl

-- The loop with the set of evidence that belongs to the batch in hand.
batches : List MaterialClaim → List MaterialClaim → List (List MaterialClaim)
batches current claims = batches_from current (unique (cited current)) claims

batches-close :
    (current : List MaterialClaim) (c : MaterialClaim) (cs : List MaterialClaim)
    → closes current (unique (cited (current ++ c ∷ []))) ≡ true
    → batches current (c ∷ cs) ≡ current ∷ batches (c ∷ []) cs
unfolding batches batches_from
batches-close current c cs h = let full = rw unique-snoc at h in rw full (rw append-nil refl)

batches-grow :
    (current : List MaterialClaim) (c : MaterialClaim) (cs : List MaterialClaim)
    → closes current (unique (cited (current ++ c ∷ []))) ≡ false
    → batches current (c ∷ cs) ≡ batches (current ++ c ∷ []) cs
unfolding batches batches_from
batches-grow current c cs h = let open_ = rw unique-snoc at h in rw open_ (rw unique-snoc refl)

joined-batches :
    (current claims : List MaterialClaim) → joined (batches current claims) ≡ current ++ claims
joined-batches [] [] = unfold batches batches_from in refl
joined-batches (x ∷ current) [] = unfold batches batches_from in refl
joined-batches current (c ∷ cs) =
    elim (Bool-cases (closes current (unique (cited (current ++ c ∷ []))))) [
      | inl h ↦
          rw (batches-close current c cs h) (ap (λ l. current ++ l) (joined-batches (c ∷ []) cs))
      | inr h ↦
          rw (batches-grow current c cs h)
            (joined-batches (current ++ c ∷ []) cs ∙ rw append_assoc refl)
    ]

-- The batches together are the claims, in their order: none is lost, repeated or moved.
pub batches_keep_claims :
    (claims : List MaterialClaim) → joined (evidence_review_batches claims) ≡ claims
unfolding evidence_review_batches batches unique
batches_keep_claims claims = joined-batches [] claims

abbrev Fits : List MaterialClaim → Type 0
Fits current =
    (length current ≤ batch_size)
    × ((length current ≤ 1) ⊎ (length (unique (cited current)) ≤ batch_evidence_limit))

Fits-grow :
    (current : List MaterialClaim) (c : MaterialClaim)
    → closes current (unique (cited (current ++ c ∷ []))) ≡ false
    → Fits (current ++ c ∷ [])
unfolding closes
Fits-grow [] c h = (omega arith, inl (omega arith))
Fits-grow (x ∷ current) c h = (
  ground (arith, length-append current (c ∷ [])),
  inr (ground (arith, length-append current (c ∷ []))),
)

IsBatch-of_Fits :
    (x : MaterialClaim) (current : List MaterialClaim) → Fits (x ∷ current) → IsBatch (x ∷ current)
IsBatch-of_Fits x current h = record {
  nonempty = omega arith;
  small = h.0;
  bounded = elim h.1 [ inl e ↦ inl (omega arith) | inr e ↦ inr e ];
}

batches-IsBatch :
    (current claims : List MaterialClaim) → Fits current → All IsBatch (batches current claims)
batches-IsBatch [] [] h = unfold batches batches_from in tt
batches-IsBatch (x ∷ current) [] h =
    unfold batches batches_from in (IsBatch-of_Fits x current h, tt)
batches-IsBatch [] (c ∷ cs) h =
    rw (batches-grow [] c cs (unfold closes in refl))
      (batches-IsBatch (c ∷ []) cs (omega arith, inl (omega arith)))
batches-IsBatch (x ∷ current) (c ∷ cs) h =
    elim (Bool-cases (closes (x ∷ current) (unique (cited ((x ∷ current) ++ c ∷ []))))) [
      | inl k ↦ rw (batches-close (x ∷ current) c cs k) (
        IsBatch-of_Fits x current h,
        batches-IsBatch (c ∷ []) cs (omega arith, inl (omega arith)),
      )
      | inr k ↦
          rw (batches-grow (x ∷ current) c cs k)
            (batches-IsBatch (x ∷ current ++ c ∷ []) cs (Fits-grow (x ∷ current) c k))
    ]

-- Every batch holds between one and five claims, and a batch of several claims cites at most six
-- different evidence ids.
pub batches_bounded : (claims : List MaterialClaim) → All IsBatch (evidence_review_batches claims)
unfolding evidence_review_batches batches unique
batches_bounded claims = batches-IsBatch [] claims (omega arith, inl (omega arith))

-- ===== src/Evidence/Batches.antt =====
-- _evidence_review_batches of diagnostics/service.py: the claims in groups that one prompt holds.
pub mod Bounds
use agenstfer_agi.Base.{
  ℕ, String, Bool, ◌&&◌, ◌||◌, not, List, [], ◌∷◌, ◌++◌, if◌then◌else◌, leb, ltb, length, is_empty,
}
use agenstfer_agi.Base.Sets.{add_new, unique}
use agenstfer_agi.Evidence.Contracts.{MaterialClaim}

abbrev pub batch_size : ℕ
batch_size = 5

abbrev pub batch_evidence_limit : ℕ
batch_evidence_limit = 6

-- The batch in hand is closed: it is full, or the claim would bring too much evidence.
unfoldable pub closes : List MaterialClaim → List String → Bool
closes current combined =
    not (is_empty current)
    && (leb batch_size (length current) || ltb batch_evidence_limit (length combined))

-- `current` and the set `current_evidence` are the loop's variables.
unfoldable pub batches_from :
    List MaterialClaim → List String → List MaterialClaim → List (List MaterialClaim)
unfolding closes
batches_from current evidence [] = if is_empty current then [] else current ∷ []
batches_from current evidence (claim ∷ claims) =
    let combined = add_new evidence claim.evidence_ids in
    let full = closes current combined in
    let rest =
      batches_from (if full then claim ∷ [] else current ++ claim ∷ [])
        (if full then unique claim.evidence_ids else combined) claims in
    if full then current ∷ rest else rest

unfoldable pub evidence_review_batches : List MaterialClaim → List (List MaterialClaim)
unfolding batches_from
evidence_review_batches claims = batches_from [] [] claims

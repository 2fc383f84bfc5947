-- ===== src/Evidence/Gate/Outcome.antt =====
-- The outcome of the evidence gate, on every claim.
use agenstfer_agi.Base.{
  String, ◌≡◌, ◌↔◌, refl, sym, ◌∙◌, Bool, true, false, not, ◌&&◌, ◌||◌, List, [], ◌∷◌, arith, ◌==◌,
  eq_iff, any, select, is_empty, ok, err,
}
use agenstfer_agi.Base.Dict.{Dict}
use agenstfer_agi.Base.Sets.{
  elem, unique, elem-append, elem-snoc, elem-unique, Distinct, Distinct-unique,
}
use agenstfer_agi.Base.Sort.{sorted, elem-sorted}
use agenstfer_agi.Evidence.Contracts.{MaterialClaim, EvidenceDecision, EvidenceReview}
use agenstfer_agi.Evidence.Gate.{
  EvidenceGateResult, GateError, rejected_deterministic, decisions_from, missing, rejected,
  is_deterministic, Tally, no_tally, tally_claim, tally_claims, close_gate, enforce_evidence_gate,
}

abbrev pub decided : EvidenceReview → Dict EvidenceDecision
decided review = decisions_from review.decisions []

-- A claim that is kept, one that is left out of the report, and one that stops the run.
abbrev pub kept : List String → EvidenceReview → MaterialClaim → Bool
kept stored review c = not (rejected stored (decided review) c)

abbrev pub withheld : List String → EvidenceReview → MaterialClaim → Bool
withheld stored review c = rejected stored (decided review) c && not (is_deterministic c)

abbrev pub fatal : List String → EvidenceReview → MaterialClaim → Bool
fatal stored review c = rejected stored (decided review) c && is_deterministic c

module _ (stored : List String) (d : Dict EvidenceDecision) where
  evidence-tally :
      (x : String) (t : Tally) (cs : List MaterialClaim)
      → elem x (tally_claims stored d t cs).evidence_ids ≡ (
          elem x t.evidence_ids || any (λ c. not (rejected stored d c) && elem x c.evidence_ids) cs)
  unfolding tally_claims tally_claim
  evidence-tally x t [] = ground arith
  evidence-tally x t (c ∷ cs) =
      evidence-tally x (tally_claim stored d t c) cs
      ∙ ground (arith, elem-append x t.evidence_ids c.evidence_ids)

  narrative-tally :
      (x : String) (t : Tally) (cs : List MaterialClaim)
      → elem x (tally_claims stored d t cs).narrative_failures ≡ (
          elem x t.narrative_failures
          || any (λ c. (rejected stored d c && not (is_deterministic c)) && c.id == x) cs)
  unfolding tally_claims tally_claim
  narrative-tally x t [] = ground arith
  narrative-tally x t (c ∷ cs) =
      narrative-tally x (tally_claim stored d t c) cs
      ∙ ground (arith, elem-snoc x c.id t.narrative_failures)

  fatal-tally :
      (t : Tally) (cs : List MaterialClaim)
      → is_empty (tally_claims stored d t cs).deterministic_failures ≡ (
          is_empty t.deterministic_failures
          && not (any (λ c. rejected stored d c && is_deterministic c) cs))
  unfolding tally_claims tally_claim
  fatal-tally t [] = ground arith
  fatal-tally t (c ∷ cs) = fatal-tally (tally_claim stored d t c) cs ∙ ground arith

close-err :
    (t : Tally) (contradictions : List String) (e : GateError)
    → close_gate t contradictions ≡ err e
    → is_empty t.deterministic_failures ≡ false
unfolding close_gate
close-err t contradictions e h = ground arith

close-fatal :
    (t : Tally) (contradictions : List String)
    → is_empty t.deterministic_failures ≡ false
    → (e : GateError) × (close_gate t contradictions ≡ err e)
unfolding close_gate
close-fatal t contradictions h =
    (rejected_deterministic (sorted (unique t.deterministic_failures)), rw h refl)

-- The gate fails exactly if a deterministic claim is rejected.
pub gate_fails_iff :
    (stored : List String) (claims : List MaterialClaim) (review : EvidenceReview)
    → (any (fatal stored review) claims ≡ true)
      ↔ ((e : GateError) × (enforce_evidence_gate stored claims review ≡ err e))
unfolding enforce_evidence_gate
gate_fails_iff stored claims review =
    let t = tally_claims stored (decided review) no_tally claims in
    let f = fatal-tally stored (decided review) no_tally claims in
    (
      λ h. close-fatal t review.contradictions (ground (arith, f)),
      λ h. ground (arith, f, close-err t review.contradictions h.0 h.1),
    )

pub record GateKeeps (stored : List String) (claims : List MaterialClaim) (review : EvidenceReview)
    (r : EvidenceGateResult) : Type 0 where
  pub evidence :
      (x : String)
      → elem x r.evidence_ids ≡ any (λ c. kept stored review c && elem x c.evidence_ids) claims
  pub narrative :
      (x : String)
      → elem x r.rejected_claim_ids ≡ any (λ c. withheld stored review c && c.id == x) claims
  pub deterministic : any (fatal stored review) claims ≡ false
  pub distinct : Distinct r.evidence_ids

-- When the gate succeeds, no deterministic claim was rejected, its evidence ids are without
-- repetition exactly those that the kept claims cite, and its rejected ids are exactly those of
-- the rejected narrative claims.
pub gate_keeps :
    (stored : List String) (claims : List MaterialClaim) (review : EvidenceReview)
    (r : EvidenceGateResult)
    → enforce_evidence_gate stored claims review ≡ ok r
    → GateKeeps stored claims review r
unfolding enforce_evidence_gate close_gate elem
gate_keeps stored claims review r h =
    let d = decided review in
    let t = tally_claims stored d no_tally claims in
    let f = fatal-tally stored d no_tally claims in
    let e : r.evidence_ids ≡ unique t.evidence_ids = ground (arith) in
    let n : r.rejected_claim_ids ≡ sorted (unique t.narrative_failures) = ground (arith) in
    record {
      evidence = λ x. rw (e, elem-unique) (evidence-tally stored d x no_tally claims);
      narrative =
          λ x. rw (n, elem-sorted, elem-unique) (narrative-tally stored d x no_tally claims);
      deterministic = ground (arith, f);
      distinct = rw e (Distinct-unique t.evidence_ids);
    }

select-none :
    (e : String) (stored ids : List String)
    → is_empty (select (λ z. not (elem z stored)) ids) ≡ true
    → elem e ids ≡ true
    → elem e stored ≡ true
unfolding elem
select-none e stored [] h m = cc
select-none e stored (x ∷ ids) h m = ground (arith, select-none e stored ids, eq_iff x e)

kept-stored :
    (stored : List String) (d : Dict EvidenceDecision) (x : String) (cs : List MaterialClaim)
    → any (λ c. not (rejected stored d c) && elem x c.evidence_ids) cs ≡ true
    → elem x stored ≡ true
unfolding rejected missing
kept-stored stored d x [] h = cc
kept-stored stored d x (c ∷ cs) h =
    ground (arith, kept-stored stored d x cs, select-none x stored c.evidence_ids)

-- Every evidence id that the gate returns is a stored evidence item.
pub gate_evidence_stored :
    (stored : List String) (claims : List MaterialClaim) (review : EvidenceReview)
    (r : EvidenceGateResult) (x : String)
    → enforce_evidence_gate stored claims review ≡ ok r
    → elem x r.evidence_ids ≡ true
    → elem x stored ≡ true
gate_evidence_stored stored claims review r x h m =
    kept-stored stored (decided review) x claims
      (sym ((gate_keeps stored claims review r h).evidence x) ∙ m)

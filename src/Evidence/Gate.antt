-- ===== src/Evidence/Gate.antt =====
-- _enforce_evidence_gate of diagnostics/service.py. The table of evidence items is the list of its
-- ids; a data gap keeps the parts of its message.
pub mod Outcome
use agenstfer_agi.Base.{
  ℕ, String, Bool, true, false, ◌||◌, ◌&&◌, not, Option, none, some, List, [], ◌∷◌, ◌++◌, map,
  if◌then◌else◌, any, is_empty, select, starts_with, Result, ok, err,
}
use agenstfer_agi.Base.Dict.{Dict, get, put}
use agenstfer_agi.Base.Sets.{elem, unique}
use agenstfer_agi.Base.Sort.{sorted}
use agenstfer_agi.Evidence.Contracts.{MaterialClaim, EvidenceDecision, EvidenceReview}

abbrev pub deterministic_claim_prefix : String
deterministic_claim_prefix = "metric-"

-- `Doğrulanamayan iddia (id): reason` and `Kanıt çelişkisi: text`.
pub data Gap : Type 0 where
  unverified : String → String → Gap
  contradiction : String → Gap

pub record EvidenceGateResult : Type 0 where
  pub evidence_ids : List String
  pub rejected_claim_ids : List String
  pub data_gaps : List Gap

-- The ValueError names the deterministic claims that were rejected.
pub data GateError : Type 0 where
  rejected_deterministic : List String → GateError

-- `{item.claim_id: item for item in review.decisions}`
unfoldable pub decisions_from :
    List EvidenceDecision → Dict EvidenceDecision → Dict EvidenceDecision
decisions_from [] d = d
decisions_from (i ∷ is) d = decisions_from is (put i.claim_id i d)

unfoldable pub missing : List String → MaterialClaim → List String
missing stored c = select (λ e. not (elem e stored)) c.evidence_ids

-- No decision, an unsupported claim, or no evidence in common.
unfoldable pub undecided : Option EvidenceDecision → MaterialClaim → Bool
undecided none c = true
undecided (some d) c = not d.supported || not (any (λ e. elem e c.evidence_ids) d.evidence_ids)

unfoldable pub rejected : List String → Dict EvidenceDecision → MaterialClaim → Bool
unfolding missing undecided
rejected stored decisions c = not (is_empty (missing stored c)) || undecided (get c.id decisions) c

unfoldable pub is_deterministic : MaterialClaim → Bool
is_deterministic c = starts_with c.id deterministic_claim_prefix

unfoldable pub reason_of : Option EvidenceDecision → String
reason_of none = "no evidence decision returned"
reason_of (some d) = d.reason

-- The lists that the loop appends to.
pub record Tally : Type 0 where
  pub evidence_ids : List String
  pub deterministic_failures : List String
  pub narrative_failures : List String
  pub gaps : List Gap

unfoldable pub tally_claim : List String → Dict EvidenceDecision → Tally → MaterialClaim → Tally
unfolding rejected is_deterministic reason_of
tally_claim stored decisions t c =
    if not (rejected stored decisions c)
    then record t { evidence_ids = t.evidence_ids ++ c.evidence_ids }
    else if is_deterministic c
    then record t { deterministic_failures = t.deterministic_failures ++ c.id ∷ [] }
    else record t {
      narrative_failures = t.narrative_failures ++ c.id ∷ [];
      gaps = t.gaps ++ unverified c.id (reason_of (get c.id decisions)) ∷ [];
    }

unfoldable pub tally_claims :
    List String → Dict EvidenceDecision → Tally → List MaterialClaim → Tally
unfolding tally_claim
tally_claims stored decisions t [] = t
tally_claims stored decisions t (c ∷ cs) =
    tally_claims stored decisions (tally_claim stored decisions t c) cs

abbrev pub no_tally : Tally
no_tally = record {
  evidence_ids = [];
  deterministic_failures = [];
  narrative_failures = [];
  gaps = [];
}

unfoldable pub close_gate : Tally → List String → Result GateError EvidenceGateResult
close_gate t contradictions =
    if not (is_empty t.deterministic_failures)
    then err (rejected_deterministic (sorted (unique t.deterministic_failures)))
    else ok (record {
      evidence_ids = unique t.evidence_ids;
      rejected_claim_ids = sorted (unique t.narrative_failures);
      data_gaps = t.gaps ++ map contradiction contradictions;
    })

unfoldable pub enforce_evidence_gate :
    List String → List MaterialClaim → EvidenceReview → Result GateError EvidenceGateResult
unfolding tally_claims close_gate decisions_from
enforce_evidence_gate stored claims review =
    close_gate (tally_claims stored (decisions_from review.decisions []) no_tally claims)
      review.contradictions

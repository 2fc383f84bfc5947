-- ===== src/Evidence/Samples.antt =====
-- A report of two claims, one of them computed, that runs through the review and the gate.
use agenstfer_agi.Base.Sets.{add_new, unique, elem}
use agenstfer_agi.Base.Sort.{sorted}
use agenstfer_agi.Base.Dict.{put, get}
use agenstfer_agi.Base.{
  ◌≤◌, length, String, ◌≡◌, refl, ◌↔◌, Bool, true, false, List, [], ◌∷◌, Result, ok, err, any, All,
}
use agenstfer_agi.Evidence.Contracts.{MaterialClaim, EvidenceDecision, EvidenceReview}
use agenstfer_agi.Evidence.Batches.{evidence_review_batches}
use agenstfer_agi.Evidence.Batches.Bounds.{IsBatch, joined, batches_keep_claims, batches_bounded}
use agenstfer_agi.Evidence.Gate.{EvidenceGateResult, GateError, unverified, enforce_evidence_gate}
use agenstfer_agi.Evidence.Gate.Outcome.{
  fatal, GateKeeps, gate_fails_iff, gate_keeps, gate_evidence_stored,
}
use agenstfer_agi.Evidence.Reviewer.{
  AgentExecution, ReviewError, actual_ids, expected_ids, run_evidence_reviewer,
}
use agenstfer_agi.Evidence.Reviewer.Coverage.{review_covers}

abbrev metric_claim : MaterialClaim
metric_claim = record {
  id = "metric-a";
  text = "A: 3";
  evidence_ids = "ev-1" ∷ [];
  material = true;
}

abbrev narrative_claim : MaterialClaim
narrative_claim = record {
  id = "strength-b";
  text = "Strong";
  evidence_ids = "ev-2" ∷ [];
  material = true;
}

abbrev claims : List MaterialClaim
claims = metric_claim ∷ narrative_claim ∷ []

abbrev decision : String → Bool → String → EvidenceDecision
decision c s e = record { claim_id = c; supported = s; evidence_ids = e ∷ []; reason = "checked" }

abbrev review : EvidenceReview
review = record {
  approved = true;
  decisions = decision "metric-a" true "ev-1" ∷ decision "strength-b" false "ev-2" ∷ [];
  contradictions = [];
}

abbrev execution : AgentExecution
execution = record {
  spec = "evidence-reviewer";
  profile_id = "local-balanced";
  provider = "ollama";
  model_name = "m";
  output = review;
  usage = [];
}

abbrev answer : List MaterialClaim → Result ReviewError AgentExecution
answer b = ok execution

abbrev stored : List String
stored = "ev-1" ∷ "ev-2" ∷ []

abbrev outcome : EvidenceGateResult
outcome = record {
  evidence_ids = "ev-1" ∷ [];
  rejected_claim_ids = "strength-b" ∷ [];
  data_gaps = unverified "strength-b" "checked" ∷ [];
}

gate_run : enforce_evidence_gate stored claims review ≡ ok outcome
unfolding enforce_evidence_gate elem get put unique sorted
gate_run = refl

batches_keep_claims_example : joined (evidence_review_batches claims) ≡ claims
batches_keep_claims_example = batches_keep_claims claims

batches_bounded_example : All IsBatch (evidence_review_batches claims)
batches_bounded_example = batches_bounded claims

gate_fails_iff_example :
    (any (fatal [] review) claims ≡ true)
    ↔ ((e : GateError) × (enforce_evidence_gate [] claims review ≡ err e))
gate_fails_iff_example = gate_fails_iff [] claims review

gate_keeps_example : GateKeeps stored claims review outcome
gate_keeps_example = gate_keeps stored claims review outcome gate_run

gate_evidence_stored_example : elem "ev-1" stored ≡ true
gate_evidence_stored_example =
    gate_evidence_stored stored claims review outcome "ev-1" gate_run (unfold elem in refl)

abbrev reviewed : AgentExecution
reviewed = record execution {
  usage = ("input_tokens", 0) ∷ ("output_tokens", 0) ∷ ("requests", 0) ∷ ("tool_calls", 0) ∷ [];
}

review_run : run_evidence_reviewer answer false claims ≡ ok reviewed
unfolding run_evidence_reviewer evidence_review_batches add_new elem unique get
review_run = refl

review_covers_example :
    (1 ≤ length reviewed.output.decisions)
    × (length reviewed.output.decisions ≤ 30)
    × ((x : String) → elem x (actual_ids reviewed.output.decisions) ≡ elem x (expected_ids claims))
review_covers_example = review_covers answer false claims reviewed review_run

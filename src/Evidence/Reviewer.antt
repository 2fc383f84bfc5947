-- ===== src/Evidence/Reviewer.antt =====
-- _run_evidence_reviewer of diagnostics/service.py. What a model answers to a batch, or the
-- exception that its call ends in, is a parameter.
pub mod Coverage
use agenstfer_agi.Base.{
  ℕ, ◌+◌, String, Bool, true, false, ◌||◌, ◌&&◌, not, Option, none, some, List, [], ◌∷◌, ◌++◌, map,
  if◌then◌else◌, nat_beq, leb, length, all, take, Result, ok, err, ◌>>=◌,
}
use agenstfer_agi.Base.Dict.{Dict, get}
use agenstfer_agi.Base.Sets.{elem, unique, add_new}
use agenstfer_agi.Evidence.Contracts.{MaterialClaim, EvidenceDecision, EvidenceReview}
use agenstfer_agi.Evidence.Batches.{evidence_review_batches}

-- AgentExecution of agents/runtime.py; the specification stands by its id.
pub record AgentExecution : Type 0 where
  pub spec : String
  pub profile_id : String
  pub provider : String
  pub model_name : String
  pub output : EvidenceReview
  pub usage : Dict ℕ

pub data ReviewError : Type 0 where
  agent_failed incomplete_decisions no_claims invalid_review : ReviewError

-- `sum(int(item.usage.get(key, 0)) for item in executions)`
unfoldable pub usage_of : String → List AgentExecution → ℕ
usage_of key [] = 0
usage_of key (x ∷ xs) = elim (get key x.usage) [ none ↦ 0 | some n ↦ n ] + usage_of key xs

unfoldable pub usage_total : List AgentExecution → Dict ℕ
unfolding usage_of
usage_total xs =
    map (λ (key : String). (key, usage_of key xs))
      ("input_tokens" ∷ "output_tokens" ∷ "requests" ∷ "tool_calls" ∷ [])

-- Equality of two sets that are given by lists.
unfoldable pub same_members : List String → List String → Bool
same_members xs ys = all (λ x. elem x ys) xs && all (λ y. elem y xs) ys

abbrev pub actual_ids : List EvidenceDecision → List String
actual_ids ds = map (λ (d : EvidenceDecision). d.claim_id) ds

abbrev pub expected_ids : List MaterialClaim → List String
expected_ids cs = map (λ (c : MaterialClaim). c.id) cs

-- One decision for each claim of the batch, and no other.
unfoldable pub answers_batch : List MaterialClaim → EvidenceReview → Bool
unfolding same_members
answers_batch batch review =
    nat_beq (length (actual_ids review.decisions)) (length (unique (actual_ids review.decisions)))
    && same_members (actual_ids review.decisions) (expected_ids batch)

-- The loop's variables.
pub record Progress : Type 0 where
  pub executions : List AgentExecution
  pub decisions : List EvidenceDecision
  pub contradictions : List String
  pub approved : Bool

abbrev pub no_progress : Progress
no_progress = record { executions = []; decisions = []; contradictions = []; approved = true }

unfoldable pub add_answer :
    Progress → List MaterialClaim → AgentExecution → Result ReviewError Progress
unfolding answers_batch
add_answer p batch x =
    if answers_batch batch x.output
    then ok (record {
      executions = p.executions ++ x ∷ [];
      decisions = p.decisions ++ x.output.decisions;
      contradictions = add_new p.contradictions x.output.contradictions;
      approved = p.approved && x.output.approved;
    })
    else err incomplete_decisions

-- What pydantic checks of an EvidenceReview that is built: 1 to 30 decisions and at most 20
-- contradictions. Its decisions were checked when the answers were read.
unfoldable pub build_review : EvidenceReview → Result ReviewError EvidenceReview
build_review review =
    if leb 1 (length review.decisions)
      && leb (length review.decisions) 30
      && leb (length review.contradictions) 20
    then ok review
    else err invalid_review

abbrev pub summary_of : Progress → EvidenceReview
summary_of p = record {
  approved = p.approved;
  decisions = p.decisions;
  contradictions = take 20 p.contradictions;
}

-- `if not executions: raise`, and the summary of all answers.
unfoldable pub summarize : Progress → List AgentExecution → Result ReviewError AgentExecution
unfolding usage_total build_review
summarize p [] = err no_claims
summarize p (first ∷ rest) = build_review (summary_of p) >>= λ output.
    ok (record first { output = output; usage = usage_total p.executions })

module _ (answer : List MaterialClaim → Result ReviewError AgentExecution) where
  unfoldable pub review_batches : Progress → List (List MaterialClaim) → Result ReviewError Progress
  unfolding add_answer
  review_batches p [] = ok p
  review_batches p (b ∷ bs) = answer b >>= λ x. add_answer p b x >>= λ q. review_batches q bs

  -- With a model override, as in a test, all claims make one batch.
  unfoldable pub run_evidence_reviewer :
      Bool → List MaterialClaim → Result ReviewError AgentExecution
  unfolding review_batches summarize
  run_evidence_reviewer override claims =
      review_batches no_progress (if override then claims ∷ [] else evidence_review_batches claims)
      >>= λ p. summarize p p.executions

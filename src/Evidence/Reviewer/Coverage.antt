-- ===== src/Evidence/Reviewer/Coverage.antt =====
-- The claims that the review of all batches decides on.
use mathlib.Core.List.{append-nil}
use agenstfer_agi.Base.{
  ◌≤◌, leb, length, ◌&&◌, Bool-cases, inl, inr, err, String, ◌≡◌, refl, ◌∙◌, ap, Bool, true, false,
  ◌||◌, List, [], ◌∷◌, ◌++◌, arith, if◌then◌else◌, eq_iff, all, Result, ok, bind-ok,
}
use agenstfer_agi.Base.Sets.{elem, elem-append}
use agenstfer_agi.Evidence.Contracts.{MaterialClaim, EvidenceDecision, EvidenceReview}
use agenstfer_agi.Evidence.Batches.{evidence_review_batches}
use agenstfer_agi.Evidence.Batches.Bounds.{joined, batches_keep_claims}
use agenstfer_agi.Evidence.Reviewer.{
  AgentExecution, ReviewError, Progress, no_progress, same_members, actual_ids, expected_ids,
  answers_batch, add_answer, build_review, summary_of, usage_total, summarize, review_batches,
  run_evidence_reviewer,
}

all-elem :
    (x : String) (xs ys : List String)
    → all (λ z. elem z ys) xs ≡ true
    → elem x xs ≡ true
    → elem x ys ≡ true
unfolding elem
all-elem x [] ys h m = cc
all-elem x (z ∷ xs) ys h m = ground (arith, all-elem x xs ys, eq_iff z x)

elem-same_members :
    (x : String) (xs ys : List String) → same_members xs ys ≡ true → elem x xs ≡ elem x ys
unfolding same_members
elem-same_members x xs ys h = ground (arith, all-elem x xs ys, all-elem x ys xs)

expected-append :
    (b cs : List MaterialClaim) → expected_ids (b ++ cs) ≡ expected_ids b ++ expected_ids cs
expected-append [] cs = refl
expected-append (c ∷ b) cs = ap (λ l. c.id ∷ l) (expected-append b cs)

actual-append :
    (b cs : List EvidenceDecision) → actual_ids (b ++ cs) ≡ actual_ids b ++ actual_ids cs
actual-append [] cs = refl
actual-append (c ∷ b) cs = ap (λ l. c.claim_id ∷ l) (actual-append b cs)

add_answer-ids :
    (x : String) (p q : Progress) (b : List MaterialClaim) (e : AgentExecution)
    → add_answer p b e ≡ ok q
    → elem x (actual_ids q.decisions) ≡ (elem x (actual_ids p.decisions) || elem x (expected_ids b))
unfolding add_answer answers_batch
add_answer-ids x p q b e h =
    let same = elem-same_members x (actual_ids e.output.decisions) (expected_ids b) in
    let more : q.decisions ≡ p.decisions ++ e.output.decisions = ground arith in
    rw (more, actual-append p.decisions e.output.decisions, elem-append) (ground (arith, same))

build_review-limits :
    (a r : EvidenceReview)
    → build_review a ≡ ok r
    → (r.decisions ≡ a.decisions) × (1 ≤ length r.decisions) × (length r.decisions ≤ 30)
unfolding build_review
build_review-limits a r h =
    elim (Bool-cases (
      leb 1 (length a.decisions)
      && leb (length a.decisions) 30
      && leb (length a.contradictions) 20)) [
        | inl e ↦
            let h' = rw e at h in
            let same : a ≡ r = cc in rw (← same) (refl, ground arith, ground arith)
        | inr e ↦ absurd (let h' = rw e at h in cc)
      ]

summarize-decisions :
    (p : Progress) (xs : List AgentExecution) (r : AgentExecution)
    → summarize p xs ≡ ok r
    → (r.output.decisions ≡ p.decisions)
      × (1 ≤ length r.output.decisions)
      × (length r.output.decisions ≤ 30)
unfolding summarize
summarize-decisions p [] r h = cc
summarize-decisions p (e ∷ xs) r h =
    let (output, built, rest) =
      bind-ok (build_review (summary_of p))
        (λ output. ok (record e { output = output; usage = usage_total p.executions })) h in
    let is_output : output ≡ r.output =
      ap (λ (x : Result ReviewError AgentExecution). elim x [ ok y ↦ y.output | err z ↦ output ])
        rest in
    rw (← is_output) (build_review-limits (summary_of p) output built)

joined-choice :
    (override : Bool) (claims : List MaterialClaim)
    → joined (if override then claims ∷ [] else evidence_review_batches claims) ≡ claims
joined-choice true claims = append-nil claims
joined-choice false claims = batches_keep_claims claims

module _ (answer : List MaterialClaim → Result ReviewError AgentExecution) where
  review_batches-ids :
      (x : String) (p q : Progress) (bs : List (List MaterialClaim))
      → review_batches answer p bs ≡ ok q
      → elem x (actual_ids q.decisions)
        ≡ (elem x (actual_ids p.decisions) || elem x (expected_ids (joined bs)))
  unfolding review_batches
  review_batches-ids x p q [] h =
      let same : p ≡ q = ground arith in unfold elem in rw (← same) (ground arith)
  review_batches-ids x p q (b ∷ bs) h =
      let (e, _, h₁) = bind-ok (answer b) _ h in
      let (r, s, h₂) = bind-ok (add_answer p b e) _ h₁ in
      review_batches-ids x r q bs h₂
      ∙ rw (expected-append b (joined bs), elem-append) (ground (arith, add_answer-ids x p r b e s))

  -- A review that succeeds has between 1 and 30 decisions, on exactly the claims that it was given.
  pub review_covers :
      (override : Bool) (claims : List MaterialClaim) (r : AgentExecution)
      → run_evidence_reviewer answer override claims ≡ ok r
      → (1 ≤ length r.output.decisions)
        × (length r.output.decisions ≤ 30)
        × ((x : String) → elem x (actual_ids r.output.decisions) ≡ elem x (expected_ids claims))
  unfolding run_evidence_reviewer elem
  review_covers override claims r h =
      let bs = if override then claims ∷ [] else evidence_review_batches claims in
      let (p, q, k) = bind-ok (review_batches answer no_progress bs) _ h in
      let (same, some_decision, few) = summarize-decisions p p.executions r k in
      (
        some_decision,
        few,
        λ x. rw (same, ← joined-choice override claims) (review_batches-ids x no_progress p bs q),
      )

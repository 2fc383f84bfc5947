-- ===== src/Approvals/Candidates.antt =====
-- approve_candidate and reject_candidate of okf/lifecycle.py. The merge of two git revisions is a
-- parameter: the revision that it ends at, or none if it raises.
use agenstfer_agi.Base.{
  ℕ, String, Bool, true, false, not, Option, none, some, if◌then◌else◌, ◌==◌, leb,
}
use agenstfer_agi.Approvals.State.{
  CandidateStatus, OkfCandidate, M, lookup_error, value_error, runtime_error, ◌>>=◌, ◌>>◌, pure,
  raise, commit, change, fetch, put_candidate,
}

unfoldable pub is_pending : CandidateStatus → Bool
is_pending CandidateStatus.pending = true
is_pending _ = false

-- The value of an optional text that is there and not empty.
unfoldable pub truthy : Option String → Option String
truthy none = none
truthy (some s) = if s == "" then none else some s

unfoldable pub found : Option OkfCandidate → M OkfCandidate
found none = raise lookup_error
found (some row) = pure row

unfoldable pub merged : Option String → M String
merged none = raise runtime_error
merged (some revision) = pure revision

module _ (now : ℕ) (actor_id : Option String) (reason : String) where
  -- The decision, as the row keeps it.
  unfoldable pub decide_row : CandidateStatus → OkfCandidate → OkfCandidate
  decide_row status row = record row {
    status = status;
    decided_by = actor_id;
    decision_reason = some reason;
    decided_at = some now;
  }

  unfoldable pub reject_candidate : String → M OkfCandidate
  unfolding found is_pending decide_row
  reject_candidate candidate_id = do
    o ← fetch (λ db. db.candidates) candidate_id
    row ← found o
    if not (is_pending row.status) then raise value_error else do
      change (put_candidate (decide_row CandidateStatus.rejected row))
      commit
      pure (decide_row CandidateStatus.rejected row)

  module _ (merge : String → String → Option String) where
    -- From the test on the expiry on, for a candidate that has a revision.
    unfoldable pub merge_row : OkfCandidate → Option String → M String
    unfolding merged decide_row
    merge_row row none = raise value_error
    merge_row row (some candidate_revision) =
        if leb row.expires_at now
        then (do
          change (
              put_candidate
                (record row { status = CandidateStatus.expired; decided_at = some now }))
          commit
          raise value_error)
        else do
          revision ← merged (merge row.base_revision candidate_revision)
          change (put_candidate (decide_row CandidateStatus.approved row))
          commit
          pure revision

    unfoldable pub approve_candidate : String → M String
    unfolding found is_pending merge_row truthy
    approve_candidate candidate_id = do
      o ← fetch (λ db. db.candidates) candidate_id
      row ← found o
      if not (is_pending row.status)
          then raise value_error
          else merge_row row (truthy row.candidate_revision)

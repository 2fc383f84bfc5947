-- ===== src/Evidence/Contracts.antt =====
-- agents/contracts.py: what passes between the agents. The length limits of the fields are checked
-- by pydantic when an agent's answer is read.
use agenstfer_agi.Base.{String, Bool, List}

pub record MaterialClaim : Type 0 where
  pub id : String
  pub text : String
  pub evidence_ids : List String
  pub material : Bool

pub record EvidenceDecision : Type 0 where
  pub claim_id : String
  pub supported : Bool
  pub evidence_ids : List String
  pub reason : String

pub record EvidenceReview : Type 0 where
  pub approved : Bool
  pub decisions : List EvidenceDecision
  pub contradictions : List String

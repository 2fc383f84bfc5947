-- ===== src/Evidence.antt =====
-- agents/contracts.py and diagnostics/service.py: the claims of a report, their review in batches,
-- and the gate that lets only evidence-backed claims through.
pub mod Batches
pub mod Gate
pub mod Reviewer
mod Samples
pub mod Contracts

-- ===== src/Approvals.antt =====
-- The approval of a knowledge candidate: okf/lifecycle.py, the decision in
-- workflow/persistent_runtime.py and the expiry in workflow/scheduler.py.
pub mod State
pub mod Candidates
pub mod Expiry
pub mod Decision
mod Samples

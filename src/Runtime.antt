-- ===== src/Runtime.antt =====
-- The execution of workflows: workflow/persistent_runtime.py and workflow/langgraph_runtime.py.
pub mod Values
pub mod Conditions
pub mod Store
pub mod Engine
pub mod Restart
pub mod Approved
pub mod Tables
pub mod Start
pub mod Nodes
mod Samples
pub mod Graph

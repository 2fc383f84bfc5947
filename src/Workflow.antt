-- ===== src/Workflow.antt =====
-- The workflow package (apps/api/agi_server/workflow): definitions and their validation.
pub mod Models
pub mod Catalog
pub mod Validator
pub mod Default
pub mod Triggers

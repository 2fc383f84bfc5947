-- ===== src/Registry.antt =====
-- workflow/registry_service.py: the versioned drafts and published definitions of the registry.
pub mod Rows
pub mod Bindings
pub mod Drafts
pub mod Publish
pub mod Frozen
pub mod Published
pub mod Accepted
mod Samples

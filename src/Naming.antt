-- ===== src/Naming.antt =====
-- pkg/openapi/naming.go: how a tool gets its name, and what happens when two get the same one.
pub mod Slug
pub mod Limit
pub mod Conflicts

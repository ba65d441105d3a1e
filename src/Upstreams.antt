-- ===== src/Upstreams.antt =====
-- pkg/upstream/registry.go: the tools of all upstreams, and the groups that show them.
-- A YAML node is its address. What the sdk's Tool carries beside its name plays no part here.
pub mod Registry

-- ===== src/Manager/Views/Tests.antt =====
-- A registry with one tool, which waives authentication.
use go_auto_mcp.Prelude.{◌≡◌, refl, false, none, some, [], ◌∷◌, string_eq, lookup}
use go_auto_mcp.Upstreams.Registry.{Entry, Registry}
use go_auto_mcp.Manager.Views.{tool_needs_auth}

abbrev open_entry : Entry
open_entry = record {
  prefixed_name = "x";
  upstream = none;
  mcp_tool = record { name = "x" };
  auth_required = false;
  operation_node = none;
  rate_limit = "";
  ui_handler = none;
  cache_name = "";
}

abbrev registry : Registry
registry = record {
  by_prefixed_name = ("x", open_entry) ∷ [];
  by_prefix = [];
  by_upstream_name = [];
  spec_root_by_name = [];
  tool_list = [];
  separator = "_";
  groups = [];
}

waived : tool_needs_auth (some registry) "x" ≡ false
unfolding tool_needs_auth lookup
waived = refl

-- ===== src/Upstreams/Registry/Tests.antt =====
-- Two upstreams, one of them filtered by a query that selects node 1.
use mathlib.Core.List.{Memᴰ}
use go_auto_mcp.Prelude.{
  ℕ, String, ◌≡◌, refl, ◌↔◌, true, Option, none, some, List, [], ◌∷◌, string_eq, Dict, lookup,
  insert, contains, Result, ok, err,
}
use go_auto_mcp.Upstreams.Registry.{
  Entry, Group, ValidatedUpstream, Registry, RegistryError, JsonPath, new, new_from_entries,
  sources,
}
use go_auto_mcp.Upstreams.Registry.Calls.{
  dispatch_for_group, run, refused, not_in_group, dispatch, tools_for_group, missing_separator,
}
use go_auto_mcp.Upstreams.Registry.Names.{Holds, find_entry, entries_in, new_from_entries-Holds}
use go_auto_mcp.Upstreams.Registry.Groups.{Shown}
use go_auto_mcp.Upstreams.Registry.Filters.{filter_of}
use go_auto_mcp.Upstreams.Registry.Routing.{dispatch_for_group_iff, tool_names}

abbrev entry : String → String → Option ℕ → Entry
entry up name node_at = record {
  prefixed_name = name;
  upstream = some (record { name = up; tool_prefix = up });
  mcp_tool = record { name = name };
  auth_required = true;
  operation_node = node_at;
  rate_limit = "";
  ui_handler = none;
  cache_name = "";
}

abbrev list_pets : Entry
list_pets = entry "pets" "pets__list" (some 1)

abbrev get_pets : Entry
get_pets = entry "pets" "pets__get" (some 2)

abbrev run_cmd : Entry
run_cmd = entry "cmd" "cmd__run" none

abbrev given : Dict String (List Entry)
given = ("pets", list_pets ∷ get_pets ∷ []) ∷ ("cmd", run_cmd ∷ []) ∷ []

abbrev roots : Dict String (Option ℕ)
roots = ("pets", some 9) ∷ []

abbrev filtered : Group
filtered = record {
  name = "ro";
  endpoint = "/ro";
  upstreams = "pets" ∷ "cmd" ∷ [];
  filter = "$..get";
}

abbrev first_node : String → Option JsonPath
first_node s = some (λ root. 1 ∷ [])

built : Result RegistryError Registry
unfolding new_from_entries insert lookup contains
built = new_from_entries first_node given roots "__" (filtered ∷ [])

abbrev or_empty : Result RegistryError Registry → Registry
or_empty (ok r) = r
or_empty (err e) = record {
  by_prefixed_name = [];
  by_prefix = [];
  by_upstream_name = [];
  spec_root_by_name = [];
  tool_list = [];
  separator = "";
  groups = [];
}

built_ok : new_from_entries first_node given roots "__" (filtered ∷ []) ≡ ok (or_empty built)
unfolding built
built_ok = refl

listed : tool_names (tools_for_group (or_empty built) "ro") ≡ "pets__list" ∷ "cmd__run" ∷ []
unfolding built tools_for_group
listed = refl

hidden : dispatch_for_group (or_empty built) "ro" "pets__get" ≡ refused (not_in_group "pets__get")
unfolding built dispatch_for_group
hidden = refl

malformed : dispatch (or_empty built) "pets_get" ≡ refused (missing_separator "pets_get")
unfolding built dispatch
malformed = refl

new_from_entries-Holds_example : Holds (entries_in given) (or_empty built)
new_from_entries-Holds_example =
    new_from_entries-Holds first_node given roots "__" (filtered ∷ []) (or_empty built) built_ok

dispatch_for_group_iff_example :
    (dispatch_for_group (or_empty built) "ro" "cmd__run" ≡ run run_cmd) ↔ (
      Shown (filter_of first_node filtered) ("pets" ∷ "cmd" ∷ []) (sources roots given) "cmd__run"
      × (find_entry "cmd__run" (entries_in given) ≡ some run_cmd))
unfolding contains
dispatch_for_group_iff_example =
    dispatch_for_group_iff first_node given roots "__" (filtered ∷ []) filtered (or_empty built)
      "cmd__run" run_cmd built_ok (refl, tt) (Memᴰ.head refl)

abbrev pets : ValidatedUpstream
pets = record {
  name = "pets";
  tool_prefix = "pets";
  entries = list_pets ∷ get_pets ∷ [];
  spec_root = some 9;
}

new_built : Result RegistryError Registry
unfolding new insert lookup contains
new_built = new first_node (pets ∷ []) "__" (filtered ∷ [])

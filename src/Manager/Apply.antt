-- ===== src/Manager/Apply.antt =====
-- pkg/mcp/manager.go, applyRegistryLocked and applyResourcesLocked: from the registry to the servers.
pub mod Served
use Prim.Native.String.{String}
use go_auto_mcp.Prelude.{
  not, Option, none, some, List, [], ◌∷◌, map, string_eq, Dict, lookup, insert, contains, keep,
}
use go_auto_mcp.Upstreams.Registry.{Tool, Group, Registry}
use go_auto_mcp.Upstreams.Registry.Calls.{entry_for_tool, tools_for_group, ui_handler_for_tool}
use go_auto_mcp.Manager.{concat, ServerOps, call_tool, search, Resource, Manager}

abbrev pub search_tool_name : String
search_tool_name = "search_tools"

pub app_uri : String → String
unfolding concat
app_uri name = concat "ui://" (concat name "/app")

abbrev pub tool_names : List Tool → List String
tool_names = map (λ t. t.name)

-- the tools of a group in the manager's registry, if there is one
abbrev pub current_tools : Option Registry → String → List Tool
current_tools none group = []
current_tools (some r) group = tools_for_group r group

-- the tools of a list that have a UI, as resources
pub app_resources : Registry → List Tool → List Resource
unfolding app_uri
app_resources r [] = []
app_resources r (t ∷ ts) =
    let rest = app_resources r ts in
    elim (ui_handler_for_tool r t.name) [
      | none ↦ rest
      | some h ↦ record { uri = app_uri t.name; name = t.name; handler = h } ∷ rest
    ]

abbrev pub uris : List Resource → List String
uris = map (λ x. x.uri)

abbrev pub current_resources : Option Registry → String → List Resource
current_resources none group = []
current_resources (some r) group = app_resources r (tools_for_group r group)

-- the names of `old` that are not in `new`
abbrev pub gone : List String → List String → List String
gone old new = keep (λ n. not (contains n new)) old

-- the rate limit that the closure captures
unfoldable pub rate_limit_name : Registry → String → String
unfolding entry_for_tool
rate_limit_name r name = elim (entry_for_tool r name) [ none ↦ "" | some e ↦ e.rate_limit ]

module _ {S : Type 0} (ops : ServerOps S) where
  -- `if len(names) > 0 { srv.RemoveTools(names...) }`
  abbrev pub remove_tools_if_any : List String → S → S
  remove_tools_if_any [] s = s
  remove_tools_if_any (n ∷ ns) s = ops.remove_tools (n ∷ ns) s

  abbrev pub remove_resources_if_any : List String → S → S
  remove_resources_if_any [] s = s
  remove_resources_if_any (n ∷ ns) s = ops.remove_resources (n ∷ ns) s

  pub add_resources : List Resource → S → S
  add_resources [] s = s
  add_resources (x ∷ xs) s = add_resources xs (ops.add_resource x s)

  -- applyResourcesLocked
  pub apply_resources : Option Registry → String → Registry → S → S
  unfolding app_resources add_resources
  apply_resources old group new s =
      let wanted = app_resources new (tools_for_group new group) in
      add_resources wanted
        (remove_resources_if_any (gone (uris (current_resources old group)) (uris wanted)) s)

  -- the loop over newTools
  pub add_tools : Registry → String → List Tool → S → S
  add_tools r group [] s = s
  add_tools r group (t ∷ ts) s =
      add_tools r group ts (ops.add_tool t (call_tool t.name group (rate_limit_name r t.name)) s)

  -- the branch on newSearchTools; `none` leaves the search tool as it is
  pub apply_search : Dict String Tool → Option (Dict String Tool) → String → S → S
  apply_search before none endpoint s = s
  apply_search before (some after) endpoint s = elim (lookup endpoint after) [
    | some tool ↦ ops.add_tool tool (search endpoint) s
    | none ↦ elim (lookup endpoint before) [
      | none ↦ s
      | some tool ↦ ops.remove_tools (search_tool_name ∷ []) s
    ]
  ]

  abbrev pub server_at : Dict String S → String → S
  server_at servers endpoint = elim (lookup endpoint servers) [ none ↦ ops.new_server | some s ↦ s ]

  -- one turn of the loop over the groups
  pub apply_group :
      Option Registry → Dict String Tool → Registry → Option (Dict String Tool) → Group → S → S
  unfolding apply_resources add_tools apply_search
  apply_group old before new after g s =
      let wanted = tools_for_group new g.name in
      let trimmed =
        remove_tools_if_any (gone (tool_names (current_tools old g.name)) (tool_names wanted)) s in
      apply_search before after g.endpoint
        (add_tools new g.name wanted (apply_resources old g.name new trimmed))

  pub apply_groups :
      Option Registry
      → Dict String Tool
      → Registry
      → Option (Dict String Tool)
      → List Group
      → Dict String S
      → Dict String S
  unfolding apply_group
  apply_groups old before new after [] servers = servers
  apply_groups old before new after (g ∷ gs) servers = apply_groups old before new after gs (
      insert g.endpoint (apply_group old before new after g (server_at servers g.endpoint)) servers)

  -- applyRegistryLocked
  unfoldable pub apply_registry :
      Registry → List Group → Option (Dict String Tool) → Manager S → Manager S
  unfolding apply_groups
  apply_registry new groups after m = record m {
    servers = apply_groups m.registry m.search_tools new after groups m.servers;
    registry = some new;
  }

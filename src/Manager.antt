-- ===== src/Manager.antt =====
-- pkg/mcp/manager.go: the live registry, and one MCP server for each group endpoint.
-- A server is the sdk's: the interface ServerOps says what the manager relies on.
pub mod Apply
pub mod Update
pub mod Calls
pub mod Rebuild
pub mod Tables
pub mod Views
use go_auto_mcp.Prelude.{
  ℕ, String, ◌≡◌, Bool, Option, none, List, [], Dict, string_eq, ◌==◌, contains, if◌then◌else◌,
  some, lookup,
}
use go_auto_mcp.Upstreams.Registry.{Entry, Tool, Group, Registry}

-- The handlers that the manager registers: the closure of applyRegistryLocked with the names that it
-- captured (tool, group, rate limit), and makeSearchHandler's with its endpoint.
pub data Handler : Type 0 where
  call_tool : String → String → String → Handler
  search : String → Handler

-- sdkmcp.Resource, whose MIME type is always text/html, with its handler
pub record Resource : Type 0 where
  pub uri : String
  pub name : String
  pub handler : ℕ

-- The sdk's server: AddTool adds a tool or replaces the one of the same name, RemoveTools removes
-- those that are there, and resources and tools do not touch each other.
pub record ServerOps (S : Type 0) : Type 0 where
  pub new_server : S
  pub add_tool : Tool → Handler → S → S
  pub remove_tools : List String → S → S
  pub add_resource : Resource → S → S
  pub remove_resources : List String → S → S
  pub tool_of : S → String → Option Handler
  pub tool_of-new : (n : String) → tool_of new_server n ≡ none
  pub tool_of-add :
      (t : Tool) (h : Handler) (s : S) (n : String)
      → tool_of (add_tool t h s) n ≡ (if t.name == n then some h else tool_of s n)
  pub tool_of-remove :
      (names : List String) (s : S) (n : String)
      → tool_of (remove_tools names s) n ≡ (if contains n names then none else tool_of s n)
  pub tool_of-add_resource :
      (x : Resource) (s : S) (n : String) → tool_of (add_resource x s) n ≡ tool_of s n
  pub tool_of-remove_resources :
      (uris : List String) (s : S) (n : String) → tool_of (remove_resources uris s) n ≡ tool_of s n

pub record UpstreamState : Type 0 where
  pub entries : List Entry
  pub spec_yaml_root : Option ℕ

-- What registry rebuilds read and write. `naming` is the separator of the naming configuration, none
-- before the first Rebuild; `search_tools` is keyed by endpoint.
pub record Manager (S : Type 0) : Type 0 where
  pub servers : Dict String S
  pub registry : Option Registry
  pub groups : List Group
  pub naming : Option String
  pub upstream_by_name : Dict String UpstreamState
  pub search_tools : Dict String Tool

-- NewManager
unfoldable pub new_manager : {S : Type 0} → Manager S
new_manager = record {
  servers = [];
  registry = none;
  groups = [];
  naming = none;
  upstream_by_name = [];
  search_tools = [];
}

-- `+` on strings
pub concat : String → String → String
concat String.[] t = t
concat (String.◌∷◌ c s) t = String.◌∷◌ c (concat s t)

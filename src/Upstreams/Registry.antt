-- ===== src/Upstreams/Registry.antt =====
-- pkg/upstream/registry.go: building a registry.
pub mod Calls
pub mod Names
pub mod Success
pub mod Groups
pub mod Filters
pub mod Routing
mod Tests
use text.Mathlib.Text.{starts_with}
use go_auto_mcp.Prelude.{
  ℕ, String, Bool, true, false, not, ◌||◌, Option, none, some, List, [], ◌∷◌, ◌++◌, map, string_eq,
  nat_eq, ◌==◌, Dict, lookup, insert, contains, keep, Result, ok, err, ◌>>=◌, if◌then◌else◌,
}

pub record Upstream : Type 0 where
  pub name : String
  pub tool_prefix : String

pub record Tool : Type 0 where
  pub name : String

-- RegistryEntry. `ui_handler` stands for the handler by a number; the executor is the entry's own.
pub record Entry : Type 0 where
  pub prefixed_name : String
  pub upstream : Option Upstream
  pub mcp_tool : Tool
  pub auth_required : Bool
  pub operation_node : Option ℕ
  pub rate_limit : String
  pub ui_handler : Option ℕ
  pub cache_name : String

-- ValidatedUpstream, with the two fields of its config that the registry reads
pub record ValidatedUpstream : Type 0 where
  pub name : String
  pub tool_prefix : String
  pub entries : List Entry
  pub spec_root : Option ℕ

-- config.GroupConfig
pub record Group : Type 0 where
  pub name : String
  pub endpoint : String
  pub upstreams : List String
  pub filter : String

pub record GroupData : Type 0 where
  pub tool_list : List Tool
  pub tool_set : List String

pub record Registry : Type 0 where
  pub by_prefixed_name : Dict String Entry
  pub by_prefix : Dict String Upstream
  pub by_upstream_name : Dict String (List Entry)
  pub spec_root_by_name : Dict String (Option ℕ)
  pub tool_list : List Tool
  pub separator : String
  pub groups : Dict String GroupData

pub data RegistryError : Type 0 where
  shared_prefix : String → String → String → RegistryError
  tool_conflict : String → String → String → RegistryError
  invalid_filter : String → String → RegistryError
  nil_upstream : RegistryError

-- A compiled JSONPath: the nodes that a query from a root selects.
abbrev pub JsonPath : Type 0
JsonPath = ℕ → List ℕ

abbrev pub empty_registry : String → Registry
empty_registry separator = record {
  by_prefixed_name = [];
  by_prefix = [];
  by_upstream_name = [];
  spec_root_by_name = [];
  tool_list = [];
  separator = separator;
  groups = [];
}

-- the loop over `prefixToName`
pub check_prefixes : Dict String String → List ValidatedUpstream → Result RegistryError (Unit {0})
check_prefixes seen [] = ok tt
check_prefixes seen (vu ∷ vus) = elim (lookup vu.tool_prefix seen) [
  | some prev ↦ err (shared_prefix prev vu.name vu.tool_prefix)
  | none ↦ check_prefixes (insert vu.tool_prefix vu.name seen) vus
]

-- `if entry.Upstream != nil { r.byPrefix[entry.Upstream.ToolPrefix] = entry.Upstream }`
abbrev pub put_prefix : Option Upstream → Dict String Upstream → Dict String Upstream
put_prefix none m = m
put_prefix (some u) m = insert u.tool_prefix u m

abbrev pub entries_of : String → Dict String (List Entry) → List Entry
entries_of name m = elim (lookup name m) [ none ↦ [] | some es ↦ es ]

-- what both constructors write for a new entry
pub add_entry : Entry → Registry → Registry
add_entry e r = record r {
  by_prefixed_name = insert e.prefixed_name e r.by_prefixed_name;
  by_prefix = put_prefix e.upstream r.by_prefix;
  tool_list = r.tool_list ++ (e.mcp_tool ∷ []);
}

-- and what New adds to that
pub add_new_entry : String → Entry → Registry → Registry
unfolding add_entry
add_new_entry up_name e r =
    let added = add_entry e r in
    record added {
      by_upstream_name =
          insert up_name (entries_of up_name r.by_upstream_name ++ (e ∷ [])) r.by_upstream_name;
    }

-- New's message dereferences `existing.Upstream`
abbrev pub new_conflict : Entry → String → String → RegistryError
new_conflict existing name up_name = elim existing.upstream [
  | none ↦ nil_upstream
  | some u ↦ tool_conflict name u.name up_name
]

-- New's inner loop
pub register_new : String → List Entry → Registry → Result RegistryError Registry
unfolding add_new_entry
register_new up_name [] r = ok r
register_new up_name (e ∷ es) r = elim (lookup e.prefixed_name r.by_prefixed_name) [
  | some existing ↦ err (new_conflict existing e.prefixed_name up_name)
  | none ↦ register_new up_name es (add_new_entry up_name e r)
]

abbrev pub set_root : String → Option ℕ → Registry → Registry
set_root name root r = record r { spec_root_by_name = insert name root r.spec_root_by_name }

-- New's outer loop
pub register_all_new : List ValidatedUpstream → Registry → Result RegistryError Registry
unfolding register_new
register_all_new [] r = ok r
register_all_new (vu ∷ vus) r =
    register_new vu.name vu.entries (set_root vu.name vu.spec_root r) >>= register_all_new vus

abbrev pub owner : Entry → String
owner e = elim e.upstream [ none ↦ "" | some u ↦ u.name ]

-- NewFromEntries' inner loop. Its `entry.MCPTool != nil` holds by its contract: "each entry must
-- have MCPTool set".
pub register : List Entry → Registry → Result RegistryError Registry
unfolding add_entry
register [] r = ok r
register (e ∷ es) r = elim (lookup e.prefixed_name r.by_prefixed_name) [
  | some existing ↦ err (tool_conflict e.prefixed_name (owner existing) (owner e))
  | none ↦ register es (add_entry e r)
]

abbrev pub set_entries : String → List Entry → Registry → Registry
set_entries name es r = record r { by_upstream_name = insert name es r.by_upstream_name }

-- NewFromEntries' outer loop; Go may visit the map's keys in any order, so the list has any order
pub register_all : Dict String (List Entry) → Registry → Result RegistryError Registry
unfolding register
register_all [] r = ok r
register_all ((name, es) ∷ m) r = register es (set_entries name es r) >>= register_all m

-- The nodes that the filter selects below a root, if there are both.
abbrev pub matched_nodes : Option JsonPath → Option ℕ → List ℕ
matched_nodes none root = []
matched_nodes (some jp) none = []
matched_nodes (some jp) (some root) = jp root

-- the negation of the test before `continue`: entries with no node pass every filter
abbrev pub selected : Option JsonPath → Option ℕ → Option ℕ → Bool
selected none root at = true
selected (some jp) root none = true
selected (some jp) root (some at) = contains at (matched_nodes (some jp) root)

-- the entries of one upstream that the group shows
pub selected_names : Option JsonPath → Option ℕ → List Entry → List String
selected_names jp root [] = []
selected_names jp root (e ∷ es) =
    let rest = selected_names jp root es in
    if selected jp root e.operation_node then e.prefixed_name ∷ rest else rest

-- the group's `toolSet`
pub member_names : Option JsonPath → List String → List ValidatedUpstream → List String
unfolding selected_names
member_names jp listed [] = []
member_names jp listed (vu ∷ vus) =
    let rest = member_names jp listed vus in
    if contains vu.name listed then selected_names jp vu.spec_root vu.entries ++ rest else rest

module _ (new_path : String → Option JsonPath) where
  unfoldable pub compile_filters :
      Dict String JsonPath → List Group → Result RegistryError (Dict String JsonPath)
  compile_filters filters [] = ok filters
  compile_filters filters (g ∷ gs) = elim (g.filter == "") [
    | true ↦ compile_filters filters gs
    | false ↦ elim (new_path g.filter) [
      | none ↦ err (invalid_filter g.name g.filter)
      | some jp ↦ compile_filters (insert g.name jp filters) gs
    ]
  ]

pub group_data : Option JsonPath → Group → List ValidatedUpstream → List Tool → GroupData
unfolding member_names
group_data jp g vus tools =
    let set = member_names jp g.upstreams vus in
    record { tool_list = keep (λ t. contains t.name set) tools; tool_set = set }

-- the loop that fills `r.groups`
pub build_groups :
    Dict String JsonPath
    → List ValidatedUpstream
    → List Tool
    → List Group
    → Dict String GroupData
    → Dict String GroupData
unfolding group_data
build_groups filters vus tools [] built = built
build_groups filters vus tools (g ∷ gs) built =
    build_groups filters vus tools gs
      (insert g.name (group_data (lookup g.name filters) g vus tools) built)

abbrev pub with_groups :
    Dict String JsonPath → List ValidatedUpstream → List Group → Registry → Registry
with_groups filters vus groups r = record r {
  groups = build_groups filters vus r.tool_list groups [];
}

-- the upstreams of the two maps that NewFromEntries is given
abbrev pub sources : Dict String (Option ℕ) → Dict String (List Entry) → List ValidatedUpstream
sources roots [] = []
sources roots ((name, es) ∷ m) =
    record {
      name = name;
      tool_prefix = "";
      entries = es;
      spec_root = elim (lookup name roots) [ none ↦ none | some root ↦ root ];
    }
    ∷ sources roots m

module _ (new_path : String → Option JsonPath) where
  unfoldable pub new : List ValidatedUpstream → String → List Group → Result RegistryError Registry
  unfolding check_prefixes register_all_new compile_filters build_groups
  new vus separator groups = do
    u ← check_prefixes [] vus
    r ← register_all_new vus (empty_registry separator)
    filters ← compile_filters new_path [] groups
    ok (with_groups filters vus groups r)

  unfoldable pub new_from_entries :
      Dict String (List Entry)
      → Dict String (Option ℕ)
      → String
      → List Group
      → Result RegistryError Registry
  unfolding register_all compile_filters build_groups
  new_from_entries entries roots separator groups = do
    r ← register_all entries (record (empty_registry separator) { spec_root_by_name = roots })
    filters ← compile_filters new_path [] groups
    ok (with_groups filters (sources roots entries) groups r)

-- ===== src/Upstreams/Registry/Calls.antt =====
-- pkg/upstream/registry.go: what a registry answers about a tool, and where a call goes.
use text.Mathlib.Text.{starts_with}
use go_auto_mcp.Prelude.{
  ℕ, String, Bool, true, not, ◌||◌, Option, none, some, List, [], string_eq, ◌==◌, lookup, contains,
  if◌then◌else◌,
}
use go_auto_mcp.Upstreams.Registry.{Registry, Entry, Tool, entries_of}

unfoldable pub entry_for_tool : Registry → String → Option Entry
entry_for_tool r name = lookup name r.by_prefixed_name

unfoldable pub entries_for_upstream : Registry → String → List Entry
entries_for_upstream r name = entries_of name r.by_upstream_name

unfoldable pub spec_root_for_upstream : Registry → String → Option ℕ
spec_root_for_upstream r name = elim (lookup name r.spec_root_by_name) [
  | none ↦ none
  | some root ↦ root
]

unfoldable pub tools_for_group : Registry → String → List Tool
tools_for_group r group = elim (lookup group r.groups) [ none ↦ [] | some gd ↦ gd.tool_list ]

pub data Refusal : Type 0 where
  unknown_group not_in_group unknown_tool missing_separator : String → Refusal

-- A call is refused with an error result, or handed to the entry's executor.
pub data Dispatch : Type 0 where
  refused : Refusal → Dispatch
  run : Entry → Dispatch

abbrev pub run_entry : String → Option Entry → Dispatch
run_entry name none = refused (unknown_tool name)
run_entry name (some e) = run e

unfoldable pub dispatch_for_group : Registry → String → String → Dispatch
dispatch_for_group r group name = elim (lookup group r.groups) [
  | none ↦ refused (unknown_group group)
  | some gd ↦
      if not (contains name gd.tool_set)
      then refused (not_in_group name)
      else run_entry name (lookup name r.by_prefixed_name)
]

-- true, the conservative default, for an unknown tool
unfoldable pub auth_required : Registry → String → Bool
auth_required r name = elim (lookup name r.by_prefixed_name) [
  | none ↦ true
  | some e ↦ e.auth_required
]

-- "" for an unknown tool; `none` is the nil dereference of an entry that has no upstream
unfoldable pub tool_upstream_name : Registry → String → Option String
tool_upstream_name r name = elim (lookup name r.by_prefixed_name) [
  | none ↦ some ""
  | some e ↦ elim e.upstream [ none ↦ none | some u ↦ some u.name ]
]

unfoldable pub ui_handler_for_tool : Registry → String → Option ℕ
ui_handler_for_tool r name = elim (lookup name r.by_prefixed_name) [
  | none ↦ none
  | some e ↦ e.ui_handler
]

-- `strings.Contains`
pub has_substring : String → String → Bool
has_substring String.[] sub = sub == ""
has_substring (String.◌∷◌ c s) sub = starts_with (String.◌∷◌ c s) sub || has_substring s sub

unfoldable pub dispatch : Registry → String → Dispatch
unfolding has_substring
dispatch r name =
    if not (has_substring name r.separator)
    then refused (missing_separator name)
    else run_entry name (lookup name r.by_prefixed_name)

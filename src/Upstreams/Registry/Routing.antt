-- ===== src/Upstreams/Registry/Routing.antt =====
-- Routing a call in a group, beside what the group shows and lists.
use mathlib.Core.Path.{subst}
use mathlib.Core.List.{Memᴰ}
use go_auto_mcp.Prelude.{
  eq_iff, Option-cases, ◌∷◌, false, none, All, ◌&&◌, map, keep, map, All, Bool, ℕ, String, ◌≡◌,
  refl, sym, ap, ◌∙◌, ◌↔◌, true, Option, some, List, [], string_eq, Dict, lookup, contains,
  Distinct, ok, >>=-eq-ok, ok-injective, arith, Bool-cases, inl, inr,
}
use go_auto_mcp.Upstreams.Registry.{
  Tool, Entry, ValidatedUpstream, Group, Registry, JsonPath, member_names, compile_filters,
  group_data, register_all, empty_registry, with_groups, sources, new_from_entries,
}
use go_auto_mcp.Upstreams.Registry.Calls.{tools_for_group, entry_for_tool, run, dispatch_for_group}
use go_auto_mcp.Upstreams.Registry.Names.{
  Holds, tools_of, new_from_entries-Holds, entries_in, find_entry,
}
use go_auto_mcp.Upstreams.Registry.Groups.{Shown, member_names_iff}
use go_auto_mcp.Upstreams.Registry.Filters.{
  filter_of, group_names, compile_filters_lem, lookup-build_groups,
}

-- the same for both constructors: the registry after `build_groups`
record HasGroup (new_path : String → Option JsonPath) (vus : List ValidatedUpstream) (g : Group)
    (r : Registry) : Type 0 where
  stored : lookup g.name r.groups ≡ some (group_data (filter_of new_path g) g vus r.tool_list)

module _ (new_path : String → Option JsonPath) where
  with_groups-HasGroup :
      (vus : List ValidatedUpstream) (groups : List Group) (g : Group) (mid : Registry)
      (filters : Dict String JsonPath)
      → compile_filters new_path [] groups ≡ ok filters
      → Distinct (group_names groups)
      → Memᴰ g groups
      → HasGroup new_path vus g (with_groups filters vus groups mid)
  with_groups-HasGroup vus groups g mid filters compiled d m = record {
    stored =
        lookup-build_groups filters vus mid.tool_list groups [] g d m
        ∙ ap (λ jp. some (group_data jp g vus mid.tool_list))
            (compile_filters_lem new_path [] filters groups g compiled d m (unfold lookup in refl));
  }

  HasGroup-of_new_from_entries :
      (entries : Dict String (List Entry)) (roots : Dict String (Option ℕ)) (separator : String)
      (groups : List Group) (g : Group) (r : Registry)
      → new_from_entries new_path entries roots separator groups ≡ ok r
      → Distinct (group_names groups)
      → Memᴰ g groups
      → HasGroup new_path (sources roots entries) g r
  unfolding new_from_entries
  HasGroup-of_new_from_entries entries roots separator groups g r h d m =
      let start = record (empty_registry separator) { spec_root_by_name = roots } in
      let (mid, first, rest) = >>=-eq-ok (register_all entries start) _ h in
      let (filters, compiled, last) = >>=-eq-ok (compile_filters new_path [] groups) _ rest in
      subst (HasGroup new_path (sources roots entries) g) (ok-injective last)
        (with_groups-HasGroup (sources roots entries) groups g mid filters compiled d m)

  dispatch_iff :
      (vus : List ValidatedUpstream) (g : Group) (r : Registry) (name : String) (e : Entry)
      → HasGroup new_path vus g r
      → (dispatch_for_group r g.name name ≡ run e)
        ↔ (Shown (filter_of new_path g) g.upstreams vus name × (entry_for_tool r name ≡ some e))
  unfolding dispatch_for_group entry_for_tool group_data
  dispatch_iff vus g r name e has =
      let set = member_names (filter_of new_path g) g.upstreams vus in
      let (sound, complete) = member_names_iff (filter_of new_path g) g.upstreams vus name in
      (
        λ h. elim (Bool-cases (contains name set)) [
          | inl inside ↦ (sound inside, ground (arith, has.stored))
          | inr outside ↦ absurd (ground (arith, has.stored))
        ],
        λ (s, found).
            let inside : contains name set ≡ true = complete s in ground (arith, has.stored),
      )

  -- In a registry that NewFromEntries built from groups with distinct names, a call in a group runs
  -- an entry exactly if it is the entry of that name and some entry of that name, in an upstream
  -- that the group lists, passes the group's filter.
  pub dispatch_for_group_iff :
      (entries : Dict String (List Entry)) (roots : Dict String (Option ℕ)) (separator : String)
      (groups : List Group) (g : Group) (r : Registry) (name : String) (e : Entry)
      → new_from_entries new_path entries roots separator groups ≡ ok r
      → Distinct (group_names groups)
      → Memᴰ g groups
      → (dispatch_for_group r g.name name ≡ run e) ↔ (
          Shown (filter_of new_path g) g.upstreams (sources roots entries) name
          × (find_entry name (entries_in entries) ≡ some e))
  dispatch_for_group_iff entries roots separator groups g r name e h d m =
      let same = (new_from_entries-Holds new_path entries roots separator groups r h).found name in
      let (to, from) =
        dispatch_iff (sources roots entries) g r name e
          (HasGroup-of_new_from_entries entries roots separator groups g r h d m) in
      (λ p. let (s, found) = to p in (s, sym same ∙ found), λ (s, found). from (s, same ∙ found))

abbrev pub tool_names : List Tool → List String
tool_names = map (λ t. t.name)

tool_names-keep :
    (set : List String) (tools : List Tool) (name : String)
    → contains name (tool_names (keep (λ t. contains t.name set) tools))
      ≡ (contains name set && contains name (tool_names tools))
unfolding contains
tool_names-keep set [] name = ground arith
tool_names-keep set (t ∷ tools) name =
    ground (arith, tool_names-keep set tools name, eq_iff t.name name)

abbrev is_found : Option Entry → Bool
is_found none = false
is_found (some e) = true

abbrev pub NamesAgree : List Entry → Type 0
NamesAgree es = All (λ e. e.mcp_tool.name ≡ e.prefixed_name) es

tool_names-tools_of :
    (es : List Entry) (name : String)
    → NamesAgree es
    → contains name (tool_names (tools_of es)) ≡ is_found (find_entry name es)
unfolding contains
tool_names-tools_of [] name h = refl
tool_names-tools_of (e ∷ es) name h = ground (
  arith,
  tool_names-tools_of es name h.1,
  h.0,
  eq_iff e.prefixed_name name,
  eq_iff e.mcp_tool.name name,
)

module _ (new_path : String → Option JsonPath) where
  listed_iff :
      (vus : List ValidatedUpstream) (g : Group) (r : Registry) (es : List Entry) (name : String)
      → HasGroup new_path vus g r
      → Holds es r
      → NamesAgree es
      → (contains name (tool_names (tools_for_group r g.name)) ≡ true)
        ↔ ((e : Entry) × (dispatch_for_group r g.name name ≡ run e))
  unfolding dispatch_for_group tools_for_group group_data entry_for_tool
  listed_iff vus g r es name has holds agree =
      let set = member_names (filter_of new_path g) g.upstreams vus in
      let kept = tool_names-keep set r.tool_list name in
      let shown : contains name (tool_names r.tool_list) ≡ is_found (find_entry name es) =
        ap (λ l. contains name (tool_names l)) holds.listed ∙ tool_names-tools_of es name agree in
      elim (Option-cases (find_entry name es)) [
        | inl missing ↦ (
          λ h. absurd (ground (arith, kept, shown, has.stored)),
          λ (e, h). absurd (ground (arith, has.stored, holds.found name)),
        )
        | inr (e, there) ↦ (
          λ h. (e, ground (arith, kept, shown, has.stored, holds.found name)),
          λ (e', h). ground (arith, kept, shown, has.stored, holds.found name),
        )
      ]

  -- In a registry that NewFromEntries built from groups with distinct names, and where every entry's
  -- MCP tool bears the entry's name, the tools that a group lists are exactly those that can be
  -- called in it.
  pub tools_for_group_iff :
      (entries : Dict String (List Entry)) (roots : Dict String (Option ℕ)) (separator : String)
      (groups : List Group) (g : Group) (r : Registry) (name : String)
      → new_from_entries new_path entries roots separator groups ≡ ok r
      → Distinct (group_names groups)
      → Memᴰ g groups
      → NamesAgree (entries_in entries)
      → (contains name (tool_names (tools_for_group r g.name)) ≡ true)
        ↔ ((e : Entry) × (dispatch_for_group r g.name name ≡ run e))
  tools_for_group_iff entries roots separator groups g r name h d m =
      listed_iff (sources roots entries) g r (entries_in entries) name
        (HasGroup-of_new_from_entries new_path entries roots separator groups g r h d m)
        (new_from_entries-Holds new_path entries roots separator groups r h)

-- ===== src/Manager/Apply/Served.antt =====
-- The tools of a server beside the tools of its group.
use go_auto_mcp.Prelude.{
  Option-cases, inl, inr, String, ◌≡◌, refl, ap, ◌∙◌, Bool, true, false, not, ◌&&◌, Option, none,
  some, List, [], ◌∷◌, map, string_eq, ◌==◌, Dict, lookup, insert, lookup-insert, contains,
  Distinct, keep, All, if◌then◌else◌, arith, eq_iff,
}
use go_auto_mcp.Upstreams.Registry.{Tool, Group, Registry}
use go_auto_mcp.Upstreams.Registry.Calls.{tools_for_group}
use go_auto_mcp.Manager.{ServerOps, Handler, call_tool, Resource, search}
use go_auto_mcp.Manager.Apply.{
  tool_names, gone, rate_limit_name, search_tool_name, current_tools, current_resources,
  app_resources, uris, add_resources, apply_resources, add_tools, apply_search, server_at,
  apply_group, apply_groups, remove_tools_if_any, remove_resources_if_any,
}

-- the handler that a group's server has for a name, by the registry
abbrev pub served : Option Registry → Group → String → Option Handler
served none g n = none
served (some r) g n =
    if contains n (tool_names (tools_for_group r g.name))
    then some (call_tool n g.name (rate_limit_name r n))
    else none

abbrev pub endpoints : List Group → List String
endpoints = map (λ g. g.endpoint)

contains-keep :
    (n : String) (p : String → Bool) (xs : List String)
    → contains n (keep p xs) ≡ (contains n xs && p n)
unfolding contains
contains-keep n p [] = refl
contains-keep n p (x ∷ xs) = ground (arith, contains-keep n p xs, eq_iff x n)

-- a name that the old registry does not list has no handler
served_current :
    (old : Option Registry) (g : Group) (n : String)
    → contains n (tool_names (current_tools old g.name)) ≡ false
    → served old g n ≡ none
served_current none g n h = refl
served_current (some r) g n h = rw h refl

module _ {S : Type 0} (ops : ServerOps S) (n : String) where
  tool_of-add_resources :
      (xs : List Resource) (s : S) → ops.tool_of (add_resources ops xs s) n ≡ ops.tool_of s n
  unfolding add_resources
  tool_of-add_resources [] s = refl
  tool_of-add_resources (x ∷ xs) s =
      tool_of-add_resources xs (ops.add_resource x s) ∙ ops.tool_of-add_resource x s n

  tool_of-remove_resources_if_any :
      (us : List String) (s : S)
      → ops.tool_of (remove_resources_if_any ops us s) n ≡ ops.tool_of s n
  tool_of-remove_resources_if_any [] s = refl
  tool_of-remove_resources_if_any (u ∷ us) s = ops.tool_of-remove_resources (u ∷ us) s n

  tool_of-apply_resources :
      (old : Option Registry) (group : String) (new : Registry) (s : S)
      → ops.tool_of (apply_resources ops old group new s) n ≡ ops.tool_of s n
  unfolding apply_resources
  tool_of-apply_resources old group new s =
      let wanted = app_resources new (tools_for_group new group) in
      let names = gone (uris (current_resources old group)) (uris wanted) in
      tool_of-add_resources wanted (remove_resources_if_any ops names s)
      ∙ tool_of-remove_resources_if_any names s

  tool_of-remove_tools_if_any :
      (names : List String) (s : S)
      → ops.tool_of (remove_tools_if_any ops names s) n
        ≡ (if contains n names then none else ops.tool_of s n)
  unfolding contains
  tool_of-remove_tools_if_any [] s = refl
  tool_of-remove_tools_if_any (x ∷ xs) s = ops.tool_of-remove (x ∷ xs) s n

  tool_of-add_tools :
      (r : Registry) (group : String) (ts : List Tool) (s : S)
      → ops.tool_of (add_tools ops r group ts s) n ≡ (
          if contains n (tool_names ts)
          then some (call_tool n group (rate_limit_name r n))
          else ops.tool_of s n)
  unfolding add_tools contains
  tool_of-add_tools r group [] s = refl
  tool_of-add_tools r group (t ∷ ts) s =
      let h = call_tool t.name group (rate_limit_name r t.name) in
      ground (
        arith,
        tool_of-add_tools r group ts (ops.add_tool t h s),
        ops.tool_of-add t h s n,
        eq_iff t.name n,
      )

  -- no search tool is put in, or those that are bear its name
  abbrev pub SearchNamed : Option (Dict String Tool) → Type 0
  SearchNamed none = Unit
  SearchNamed (some after) =
      (endpoint : String) (t : Tool)
      → lookup endpoint after ≡ some t
      → (t.name == search_tool_name) ≡ true

  tool_of-apply_search :
      (before : Dict String Tool) (after : Option (Dict String Tool))
      → (n == search_tool_name) ≡ false
      → SearchNamed after
      → (endpoint : String) (s : S)
      → ops.tool_of (apply_search ops before after endpoint s) n ≡ ops.tool_of s n
  unfolding apply_search contains
  tool_of-apply_search before none other named endpoint s = refl
  tool_of-apply_search before (some tools) other named endpoint s =
      elim (Option-cases (lookup endpoint tools)) [
        | inr (t, found) ↦
            rw (found, apply_search)
              (ground (
                arith,
                ops.tool_of-add t (search endpoint) s n,
                named endpoint t found,
                eq_iff t.name search_tool_name,
                eq_iff t.name n,
                eq_iff n search_tool_name,
              ))
        | inl missing ↦ elim (Option-cases (lookup endpoint before)) [
          | inl never ↦ rw (missing, never, apply_search) refl
          | inr (t, was) ↦
              rw (missing, was, apply_search)
                (ground (
                  arith,
                  ops.tool_of-remove (search_tool_name ∷ []) s n,
                  eq_iff search_tool_name n,
                  eq_iff n search_tool_name,
                ))
        ]
      ]

  -- what one server has, at an endpoint that may have no server yet
  abbrev pub tool_at : Dict String S → String → Option Handler
  tool_at servers endpoint = ops.tool_of (server_at ops servers endpoint) n

  -- every group of the list is served as a registry has it, as far as one name goes
  abbrev pub AllServed : Option Registry → Dict String S → List Group → Type 0
  AllServed r servers = All (λ g. tool_at servers g.endpoint ≡ served r g n)

  module _ (old : Option Registry) (before : Dict String Tool) (new : Registry)
      (after : Option (Dict String Tool)) (other : (n == search_tool_name) ≡ false)
      (named : SearchNamed after) where
    tool_of-apply_group :
        (g : Group) (s : S)
        → ops.tool_of s n ≡ served old g n
        → ops.tool_of (apply_group ops old before new after g s) n ≡ served (some new) g n
    unfolding apply_group
    tool_of-apply_group g s h =
        let wanted = tools_for_group new g.name in
        let names = gone (tool_names (current_tools old g.name)) (tool_names wanted) in
        let trimmed = remove_tools_if_any ops names s in
        let shown = apply_resources ops old g.name new trimmed in
        let full = add_tools ops new g.name wanted shown in
        tool_of-apply_search before after other named g.endpoint full
        ∙ tool_of-add_tools new g.name wanted shown
        ∙ ground (
          arith,
          tool_of-apply_resources old g.name new trimmed,
          tool_of-remove_tools_if_any names s,
          contains-keep n (λ x. not (contains x (tool_names wanted)))
              (tool_names (current_tools old g.name)),
          served_current old g n,
        )

    server_at-insert-other :
        (e f : String) (s : S) (servers : Dict String S)
        → (e == f) ≡ false
        → server_at ops (insert e s servers) f ≡ server_at ops servers f
    server_at-insert-other e f s servers h = ground (arith, lookup-insert e f s servers)

    server_at-apply_groups-other :
        (gs : List Group) (servers : Dict String S) (e : String)
        → contains e (endpoints gs) ≡ false
        → server_at ops (apply_groups ops old before new after gs servers) e
          ≡ server_at ops servers e
    unfolding apply_groups contains
    server_at-apply_groups-other [] servers e h = refl
    server_at-apply_groups-other (g ∷ gs) servers e h =
        let s = apply_group ops old before new after g (server_at ops servers g.endpoint) in
        server_at-apply_groups-other gs (insert g.endpoint s servers) e (ground arith)
        ∙ server_at-insert-other g.endpoint e s servers (ground arith)

    AllServed-insert :
        (gs : List Group) (servers : Dict String S) (e : String) (s : S)
        → contains e (endpoints gs) ≡ false
        → AllServed old servers gs
        → AllServed old (insert e s servers) gs
    unfolding contains
    AllServed-insert [] servers e s h k = tt
    AllServed-insert (g ∷ gs) servers e s h (k, ks) = (
      ap (λ x. ops.tool_of x n)
            (server_at-insert-other e g.endpoint s servers
              (ground (arith, eq_iff g.endpoint e, eq_iff e g.endpoint)))
          ∙ k,
      AllServed-insert gs servers e s (ground arith) ks,
    )

    pub apply_groups-AllServed :
        (gs : List Group) (servers : Dict String S)
        → Distinct (endpoints gs)
        → AllServed old servers gs
        → AllServed (some new) (apply_groups ops old before new after gs servers) gs
    unfolding apply_groups
    apply_groups-AllServed [] servers h k = tt
    apply_groups-AllServed (g ∷ gs) servers (h, hs) (k, ks) =
        let s = apply_group ops old before new after g (server_at ops servers g.endpoint) in
        let there : server_at ops (insert g.endpoint s servers) g.endpoint ≡ s =
          ground
            (arith, lookup-insert g.endpoint g.endpoint s servers, eq_iff g.endpoint g.endpoint) in
        (
          ap (λ x. ops.tool_of x n)
                (server_at-apply_groups-other gs (insert g.endpoint s servers) g.endpoint h ∙ there)
              ∙ tool_of-apply_group g (server_at ops servers g.endpoint) k,
          apply_groups-AllServed gs (insert g.endpoint s servers) hs
              (AllServed-insert gs servers g.endpoint s h ks),
        )

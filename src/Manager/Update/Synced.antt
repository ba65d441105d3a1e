-- ===== src/Manager/Update/Synced.antt =====
-- Updates and removals, and the servers beside the registry.
use mathlib.Core.Path.{subst}
use go_auto_mcp.Prelude.{
  String, ◌≡◌, refl, sym, false, Option, none, List, [], ◌∷◌, string_eq, ◌==◌, Distinct,
  Option-cases, inl, inr,
}
use go_auto_mcp.Upstreams.Registry.{Registry, JsonPath}
use go_auto_mcp.Manager.{ServerOps, Manager}
use go_auto_mcp.Manager.Apply.{apply_registry, search_tool_name}
use go_auto_mcp.Manager.Apply.Served.{AllServed, endpoints, apply_groups-AllServed}
use go_auto_mcp.Manager.Update.{Change, change, run_changes}
use go_auto_mcp.Manager.Update.Steps.{
  Changed, applied_update, failed_update, applied_removal, failed_removal, change_ready,
  change_unready,
}

module _ {S : Type 0} (ops : ServerOps S) (new_path : String → Option JsonPath) (n : String) where
  -- Every group's server has exactly the handlers that the registry gives the group, as far as
  -- the tool `n` goes.
  abbrev pub InStep : Manager S → Type 0
  InStep m = AllServed ops n m.registry m.servers m.groups

  pub apply_registry-InStep :
      (r : Registry) (m : Manager S)
      → (n == search_tool_name) ≡ false
      → Distinct (endpoints m.groups)
      → InStep m
      → InStep (apply_registry ops r m.groups none m)
  unfolding apply_registry
  apply_registry-InStep r m other distinct h =
      apply_groups-AllServed ops n m.registry m.search_tools r none other tt m.groups m.servers
        distinct h

  pub Changed-groups :
      (separator : String) (m m' : Manager S) (c : Change)
      → Changed ops new_path m separator c m'
      → m'.groups ≡ m.groups
  unfolding apply_registry
  Changed-groups separator m m' c (applied_update name entries root r h) = refl
  Changed-groups separator m m' c (failed_update name entries root e h) = refl
  Changed-groups separator m m' c (applied_removal name r h) = refl
  Changed-groups separator m m' c (failed_removal name e h) = refl

  Changed-InStep :
      (separator : String) (m m' : Manager S) (c : Change)
      → (n == search_tool_name) ≡ false
      → Distinct (endpoints m.groups)
      → InStep m
      → Changed ops new_path m separator c m'
      → InStep m'
  Changed-InStep separator m m' c other distinct h (applied_update name entries root r k) =
      apply_registry-InStep r _ other distinct h
  Changed-InStep separator m m' c other distinct h (failed_update name entries root e k) = h
  Changed-InStep separator m m' c other distinct h (applied_removal name r k) =
      apply_registry-InStep r _ other distinct h
  Changed-InStep separator m m' c other distinct h (failed_removal name e k) = h

  -- With distinct endpoints, and from a manager whose servers are in step with its registry for a
  -- tool other than the search tool, they are after any updates and removals, failed ones included.
  pub run_changes-InStep :
      (cs : List Change) (m : Manager S)
      → (n == search_tool_name) ≡ false
      → Distinct (endpoints m.groups)
      → InStep m
      → InStep (run_changes ops new_path cs m)
  unfolding run_changes
  run_changes-InStep [] m other distinct h = h
  run_changes-InStep (c ∷ cs) m other distinct h = elim (Option-cases m.naming) [
    | inl unready ↦
        let same = change_unready ops new_path m c unready in
        subst (λ x. InStep (run_changes ops new_path cs x)) (sym same)
          (run_changes-InStep cs m other distinct h)
    | inr (separator, ready) ↦
        let step = change_ready ops new_path separator m c ready in
        let next = change ops new_path c m in
        run_changes-InStep cs next other
          (subst (λ gs. Distinct (endpoints gs)) (sym (Changed-groups separator m next c step))
            distinct)
          (Changed-InStep separator m next c other distinct h step)
  ]

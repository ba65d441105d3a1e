-- ===== src/Manager/Update/Refreshed.antt =====
-- A refresher over the manager itself.
use mathlib.Core.Path.{subst}
use go_auto_mcp.Prelude.{
  ap, ℕ, String, ◌≡◌, sym, false, Option, List, [], ◌∷◌, string_eq, ◌==◌, Distinct, Option-cases,
  inl, inr,
}
use go_auto_mcp.Upstreams.Registry.{Entry, JsonPath}
use go_auto_mcp.Refresh.{RefreshConfig, Refresher, Tick, run_ticks}
use go_auto_mcp.Refresh.Preserved.{run_ticks_keeps}
use go_auto_mcp.Manager.{ServerOps, Manager}
use go_auto_mcp.Manager.Apply.{search_tool_name}
use go_auto_mcp.Manager.Apply.Served.{endpoints}
use go_auto_mcp.Manager.Update.{
  Change, updated, removed, change, run_changes, update_upstream, remove_upstream,
}
use go_auto_mcp.Manager.Update.Steps.{change_ready, change_unready}
use go_auto_mcp.Manager.Update.Synced.{InStep, Changed-groups, run_changes-InStep}

module _ {S : Type 0} (ops : ServerOps S) (new_path : String → Option JsonPath) (n : String) where
  abbrev Ready : Manager S → Type 0
  Ready m = InStep ops new_path n m × Distinct (endpoints m.groups)

  change-groups : (c : Change) (m : Manager S) → (change ops new_path c m).groups ≡ m.groups
  change-groups c m = elim (Option-cases m.naming) [
    | inl unready ↦ ap (λ x. x.groups) (change_unready ops new_path m c unready)
    | inr (separator, ready) ↦
        Changed-groups ops new_path n separator m (change ops new_path c m) c
          (change_ready ops new_path separator m c ready)
  ]

  change_keeps :
      (c : Change) (m : Manager S)
      → (n == search_tool_name) ≡ false
      → Ready m
      → Ready (change ops new_path c m)
  unfolding run_changes
  change_keeps c m other (h, distinct) = (
    run_changes-InStep ops new_path n (c ∷ []) m other distinct h,
    subst (λ gs. Distinct (endpoints gs)) (sym (change-groups c m)) distinct,
  )

  -- Whatever a refresher's ticks do to the manager, and with distinct endpoints: servers that are in
  -- step with the registry, for a tool other than the search tool, stay in step.
  pub run_ticks-InStep :
      (apply_overlay_bytes : String → String → Option String)
      (build_entries : String → Option (List Entry × Option ℕ)) (cfg : RefreshConfig)
      (ticks : List Tick) (r : Refresher) (m : Manager S)
      → (n == search_tool_name) ≡ false
      → Distinct (endpoints m.groups)
      → InStep ops new_path n m
      → InStep ops new_path n
          (run_ticks
            (update_upstream ops new_path)
            (remove_upstream ops new_path)
            apply_overlay_bytes
            build_entries
            cfg
            r
            m
            ticks).1
  unfolding change
  run_ticks-InStep apply_overlay_bytes build_entries cfg ticks r m other distinct h =
      (run_ticks_keeps (update_upstream ops new_path) (remove_upstream ops new_path)
        apply_overlay_bytes build_entries cfg Ready
        (λ entries root m k. change_keeps (updated cfg.name entries root) m other k)
        (λ m k. change_keeps (removed cfg.name) m other k) ticks r m (h, distinct)).0

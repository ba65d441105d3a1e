-- ===== src/Manager/Update/Contents.antt =====
-- What the registry holds after an update or a removal.
use go_auto_mcp.Prelude.{
  ℕ, ◌≤◌, String, ◌≡◌, sym, ap, ◌∙◌, true, false, Option, some, List, string_eq, insert, ok,
  err-ne-ok, ◌↔◌, ◌⊎◌, inl, inr, Dict,
}
use go_auto_mcp.Upstreams.Registry.{Entry, Registry, JsonPath, compile_filters}
use go_auto_mcp.Upstreams.Registry.Names.{Holds, entries_in, new_from_entries-Holds}
use go_auto_mcp.Upstreams.Registry.Success.{new_from_entries_ok_iff}
use go_auto_mcp.Manager.{[], ServerOps, Manager, UpstreamState}
use go_auto_mcp.Manager.Apply.{apply_registry}
use go_auto_mcp.Manager.Update.{entries_by_upstream, rebuild_from_state, update_upstream}
use go_auto_mcp.Manager.Update.Steps.{rebuild_cases, put}
use go_auto_mcp.Manager.Update.Frozen.{count_in}

abbrev pub state_of : List Entry → Option ℕ → UpstreamState
state_of entries root = record { entries = entries; spec_yaml_root = root }

module _ {S : Type 0} (ops : ServerOps S) (new_path : String → Option JsonPath) where
  update-eq-rebuild :
      (separator name : String) (entries : List Entry) (root : Option ℕ) (m : Manager S)
      → m.naming ≡ some separator
      → update_upstream ops new_path name entries root m
        ≡ rebuild_from_state ops new_path separator (put ops new_path name entries root m)
  unfolding update_upstream
  update-eq-rebuild separator name entries root m ready = simp (ready, update_upstream)

  -- An update is accepted, and then the registry holds exactly the entries of the other upstreams
  -- and the new ones; or it is refused, and then registry and servers are as they were.
  pub update_upstream_outcome :
      (separator name : String) (entries : List Entry) (root : Option ℕ) (m : Manager S)
      → m.naming ≡ some separator
      → (((update_upstream ops new_path name entries root m).1 ≡ true)
          × ((r : Registry) × ((update_upstream ops new_path name entries root m).0.registry
                ≡ some r)
              × Holds
                  (entries_in
                    (entries_by_upstream (insert name (state_of entries root) m.upstream_by_name)))
                  r))
        ⊎ (((update_upstream ops new_path name entries root m).1 ≡ false)
            × ((update_upstream ops new_path name entries root m).0.registry ≡ m.registry)
            × ((update_upstream ops new_path name entries root m).0.servers ≡ m.servers))
  unfolding apply_registry
  update_upstream_outcome separator name entries root m ready =
      let same = update-eq-rebuild separator name entries root m ready in
      let started = put ops new_path name entries root m in
      elim (rebuild_cases ops new_path separator started) [
        | inl ((e, h), k) ↦
            let end = same ∙ k in
            inr (ap (λ x. x.1) end, ap (λ x. x.0.registry) end, ap (λ x. x.0.servers) end)
        | inr (r, h, k) ↦
            let end = same ∙ k in
            inl (
              ap (λ x. x.1) end,
              (
                r,
                ap (λ x. x.0.registry) end,
                new_from_entries-Holds new_path _ _ separator m.groups r h,
              ),
            )
      ]

  -- In a manager that a Rebuild has initialised, and with filters that compile, an update is accepted
  -- exactly if no tool name occurs twice among the new entries and those of the other upstreams.
  pub update_upstream_accepts_iff :
      (separator name : String) (entries : List Entry) (root : Option ℕ) (m : Manager S)
      (filters : Dict String JsonPath)
      → m.naming ≡ some separator
      → compile_filters new_path [] m.groups ≡ ok filters
      → ((update_upstream ops new_path name entries root m).1 ≡ true)
        ↔ ((n : String) → count_in n (insert name (state_of entries root) m.upstream_by_name) ≤ 1)
  update_upstream_accepts_iff separator name entries root m filters ready compiled =
      let same = update-eq-rebuild separator name entries root m ready in
      let started = put ops new_path name entries root m in
      let succeeds = new_from_entries_ok_iff new_path _ _ separator m.groups filters compiled in
      elim (rebuild_cases ops new_path separator started) [
        | inl ((e, h), k) ↦ (
          λ accepted. absurd (let refused = ap (λ x. x.1) (same ∙ k) in cc),
          λ unique. absurd (let (r, built) = succeeds.1 unique in err-ne-ok (sym h ∙ built)),
        )
        | inr (r, h, k) ↦ (λ accepted. succeeds.0 (r, h), λ unique. ap (λ x. x.1) (same ∙ k))
      ]

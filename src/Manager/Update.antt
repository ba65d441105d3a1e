-- ===== src/Manager/Update.antt =====
-- pkg/mcp/manager.go, UpdateUpstream and RemoveUpstream: what a background refresh does to the
-- registry. The map of upstreams is visited in the order of its list; Go may choose another.
pub mod Steps
pub mod Synced
pub mod Refreshed
pub mod Frozen
pub mod Contents
mod Tests
use go_auto_mcp.Prelude.{
  ℕ, String, Bool, true, false, Option, none, some, List, [], ◌∷◌, string_eq, Dict, lookup, insert,
  erase, ok, err,
}
use go_auto_mcp.Upstreams.Registry.{Entry, JsonPath, new_from_entries}
use go_auto_mcp.Manager.{ServerOps, Manager, UpstreamState}
use go_auto_mcp.Manager.Apply.{apply_registry}

abbrev pub entries_by_upstream : Dict String UpstreamState → Dict String (List Entry)
entries_by_upstream [] = []
entries_by_upstream ((name, state) ∷ m) = (name, state.entries) ∷ entries_by_upstream m

abbrev pub roots_by_upstream : Dict String UpstreamState → Dict String (Option ℕ)
roots_by_upstream [] = []
roots_by_upstream ((name, state) ∷ m) = (name, state.spec_yaml_root) ∷ roots_by_upstream m

-- `if oldState != nil { m.upstreamByName[upstreamName] = oldState }`
abbrev pub restore :
    String → Option UpstreamState → Dict String UpstreamState → Dict String UpstreamState
restore name none m = m
restore name (some state) m = insert name state m

-- the error branch of RemoveUpstream
abbrev pub after_removal :
    {S : Type 0} → String → Option UpstreamState → Manager S × Bool → Manager S
after_removal name old (m, true) = m
after_removal name old (m, false) = record m {
  upstream_by_name = restore name old m.upstream_by_name;
}

-- what the refreshers ask of the manager
pub data Change : Type 0 where
  updated : String → List Entry → Option ℕ → Change
  removed : String → Change

module _ {S : Type 0} (ops : ServerOps S) (new_path : String → Option JsonPath) where
  -- rebuildFromStateLocked; the Boolean tells that no error came back
  pub rebuild_from_state : String → Manager S → Manager S × Bool
  unfolding apply_registry
  rebuild_from_state separator m =
      elim (new_from_entries new_path (entries_by_upstream m.upstream_by_name)
        (roots_by_upstream m.upstream_by_name) separator m.groups) [
          | err e ↦ (m, false)
          | ok r ↦ (apply_registry ops r m.groups none m, true)
        ]

  pub update_upstream : String → List Entry → Option ℕ → Manager S → Manager S × Bool
  unfolding rebuild_from_state
  update_upstream name entries root m = elim m.naming [
    | none ↦ (m, false)
    | some separator ↦ rebuild_from_state separator (record m {
      upstream_by_name =
          insert name (record { entries = entries; spec_yaml_root = root }) m.upstream_by_name;
    })
  ]

  pub remove_upstream : String → Manager S → Manager S
  unfolding rebuild_from_state
  remove_upstream name m = elim m.naming [
    | none ↦ m
    | some separator ↦ after_removal name (lookup name m.upstream_by_name) (
        rebuild_from_state separator
          (record m { upstream_by_name = erase name m.upstream_by_name }))
  ]

  pub change : Change → Manager S → Manager S
  unfolding update_upstream remove_upstream
  change (updated name entries root) m = (update_upstream name entries root m).0
  change (removed name) m = remove_upstream name m

  pub run_changes : List Change → Manager S → Manager S
  unfolding change
  run_changes [] m = m
  run_changes (c ∷ cs) m = run_changes cs (change c m)

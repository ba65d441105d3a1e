-- ===== src/Manager/Update/Steps.antt =====
-- The ways in which a change of the manager can end.
use mathlib.Core.Path.{subst}
use go_auto_mcp.Prelude.{
  sym, ℕ, String, ◌≡◌, refl, ap, ◌∙◌, true, false, Option, none, some, List, string_eq, lookup,
  erase, insert, Result, ok, err, ◌⊎◌, inl, inr,
}
use go_auto_mcp.Upstreams.Registry.{Entry, Registry, RegistryError, JsonPath, new_from_entries}
use go_auto_mcp.Manager.{ServerOps, Manager}
use go_auto_mcp.Manager.Apply.{apply_registry}
use go_auto_mcp.Manager.Update.{
  entries_by_upstream, after_removal, roots_by_upstream, restore, rebuild_from_state,
  update_upstream, remove_upstream, Change, updated, removed, change,
}

Result-cases : {E A : Type 0} (x : Result E A) → ((e : E) × (x ≡ err e)) ⊎ ((a : A) × (x ≡ ok a))
Result-cases (ok a) = inr (a, refl)
Result-cases (err e) = inl (e, refl)

module _ {S : Type 0} (ops : ServerOps S) (new_path : String → Option JsonPath) where
  -- the registry that the state asks for, if there is one
  abbrev pub wanted : String → Manager S → Result RegistryError Registry
  wanted separator m =
      new_from_entries new_path (entries_by_upstream m.upstream_by_name)
        (roots_by_upstream m.upstream_by_name) separator m.groups

  abbrev pub put : String → List Entry → Option ℕ → Manager S → Manager S
  put name entries root m = record m {
    upstream_by_name =
        insert name (record { entries = entries; spec_yaml_root = root }) m.upstream_by_name;
  }

  abbrev pub dropped : String → Manager S → Manager S
  dropped name m = record m { upstream_by_name = erase name m.upstream_by_name }

  abbrev pub put_back : String → Manager S → Manager S
  put_back name m = record m {
    upstream_by_name =
        restore name (lookup name m.upstream_by_name) (erase name m.upstream_by_name);
  }

  pub rebuild_cases :
      (separator : String) (m : Manager S)
      → (((e : RegistryError) × (wanted separator m ≡ err e))
          × (rebuild_from_state ops new_path separator m ≡ (m, false)))
        ⊎ ((r : Registry) × (wanted separator m ≡ ok r)
            × (rebuild_from_state ops new_path separator m
                ≡ (apply_registry ops r m.groups none m, true)))
  unfolding rebuild_from_state
  rebuild_cases separator m = elim (Result-cases (wanted separator m)) [
    | inl (e, failed) ↦ inl ((e, failed), rw (failed, rebuild_from_state) refl)
    | inr (r, built) ↦ inr (r, built, rw (built, rebuild_from_state) refl)
  ]

  -- What one change of a manager that has been built does: the changed state is built and applied,
  -- or it cannot be, and then an update leaves its entries and a removal puts the old ones back.
  pub data Changed (m : Manager S) (separator : String) : Change → Manager S → Type 0 where
    applied_update :
        (name : String) (entries : List Entry) (root : Option ℕ) (r : Registry)
        → wanted separator (put name entries root m) ≡ ok r
        → Changed m separator
            (updated name entries root)
            (apply_registry ops r m.groups none (put name entries root m))
    failed_update :
        (name : String) (entries : List Entry) (root : Option ℕ) (e : RegistryError)
        → wanted separator (put name entries root m) ≡ err e
        → Changed m separator (updated name entries root) (put name entries root m)
    applied_removal :
        (name : String) (r : Registry)
        → wanted separator (dropped name m) ≡ ok r
        → Changed m separator (removed name) (apply_registry ops r m.groups none (dropped name m))
    failed_removal :
        (name : String) (e : RegistryError)
        → wanted separator (dropped name m) ≡ err e
        → Changed m separator (removed name) (put_back name m)

  pub change_ready :
      (separator : String) (m : Manager S) (c : Change)
      → m.naming ≡ some separator
      → Changed m separator c (change ops new_path c m)
  unfolding change update_upstream
  change_ready separator m (updated name entries root) ready =
      let started : change ops new_path (updated name entries root) m
          ≡ (rebuild_from_state ops new_path separator (put name entries root m)).0 =
        simp (ready, change, update_upstream) in
      elim (rebuild_cases separator (put name entries root m)) [
        | inl ((e, h), k) ↦
            subst (Changed m separator (updated name entries root))
              (sym (started ∙ ap (λ x. x.0) k)) (failed_update name entries root e h)
        | inr (r, h, k) ↦
            subst (Changed m separator (updated name entries root))
              (sym (started ∙ ap (λ x. x.0) k)) (applied_update name entries root r h)
      ]
  change_ready separator m (removed name) ready =
      let old = lookup name m.upstream_by_name in
      let started : change ops new_path (removed name) m
          ≡ after_removal name old (rebuild_from_state ops new_path separator (dropped name m)) =
        simp (ready, change, remove_upstream) in
      elim (rebuild_cases separator (dropped name m)) [
        | inl ((e, h), k) ↦
            subst (Changed m separator (removed name))
              (sym (started ∙ ap (after_removal name old) k)) (failed_removal name e h)
        | inr (r, h, k) ↦
            subst (Changed m separator (removed name))
              (sym (started ∙ ap (after_removal name old) k)) (applied_removal name r h)
      ]

  -- before the first Rebuild nothing changes
  pub change_unready : (m : Manager S) (c : Change) → m.naming ≡ none → change ops new_path c m ≡ m
  unfolding change update_upstream remove_upstream
  change_unready m (updated name entries root) h = simp (h, change, update_upstream)
  change_unready m (removed name) h = simp (h, change, remove_upstream)

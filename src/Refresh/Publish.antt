-- ===== src/Refresh/Publish.antt =====
-- How one refresh can end.
use go_auto_mcp.Prelude.{
  ℕ, String, ◌≡◌, refl, Bool, true, false, Option, List, not, ◌&&◌, ◌⊎◌, inl, inr, Bool-cases,
  Option-cases,
}
use go_auto_mcp.Upstreams.Registry.{Entry}
use go_auto_mcp.Refresh.{
  RefreshConfig, Refresher, Tick, Overlay, fetch_overlay, should_refresh_overlay, spec_or_cached,
  is_not_modified, apply_overlay, publish, rebuild, refresh,
}

module _ {M : Type 0} (update_upstream : String → List Entry → Option ℕ → M → M × Bool)
    (remove_upstream : String → M → M) (apply_overlay_bytes : String → String → Option String)
    (build_entries : String → Option (List Entry × Option ℕ)) (cfg : RefreshConfig) where
  abbrev publish_at :
      Refresher → M → ℕ → String → String → Overlay → List Entry × Option ℕ → Refresher × M × Bool
  publish_at = publish update_upstream remove_upstream apply_overlay_bytes build_entries cfg

  abbrev rebuild_at : Refresher → M → ℕ → String → String → Overlay → Refresher × M × Bool
  rebuild_at = rebuild update_upstream remove_upstream apply_overlay_bytes build_entries cfg

  abbrev pub refresh_at : Refresher → M → Tick → Refresher × M × Bool
  refresh_at = refresh update_upstream remove_upstream apply_overlay_bytes build_entries cfg

  -- the manager was not told, or did not accept
  abbrev pub Refused : M → M → Type 0
  Refused m m' =
      (m' ≡ m)
      ⊎ ((entries : List Entry) × (root : Option ℕ) × (update_upstream cfg.name entries root m
            ≡ (m', false)))

  -- A refresh ends in one of three ways: nothing to do, given up with the snapshot and the flags
  -- as they were, or published, with the manager and the snapshot on the same tools.
  pub data Ended (r : Refresher) (m : M) (out : Refresher × M × Bool) : Type 0 where
    unchanged : out.0 ≡ r → out.1 ≡ m → out.2 ≡ true → Ended r m out
    gave_up : out.0 ≡ r → Refused m out.1 → out.2 ≡ false → Ended r m out
    published :
        update_upstream cfg.name out.0.current.compiled_tools out.0.current.spec_yaml_root m
          ≡ (out.1, true)
        → out.0.degraded ≡ false
        → out.0.failures ≡ r.failures
        → out.2 ≡ true
        → Ended r m out

  publish-Ended :
      (r : Refresher) (m : M) (now : ℕ) (spec etag : String) (o : Overlay)
      (built : List Entry × Option ℕ)
      → Ended r m (publish_at r m now spec etag o built)
  unfolding publish
  publish-Ended r m now spec etag o (entries, root) =
      let answer = update_upstream cfg.name entries root m in
      elim (Bool-cases answer.1) [
        | inl accepted ↦ rw accepted (published (λ i. (answer.0, accepted i)) refl refl refl)
        | inr refused ↦
            rw refused (gave_up refl (inr (entries, root, λ i. (answer.0, refused i))) refl)
      ]

  rebuild-Ended :
      (r : Refresher) (m : M) (now : ℕ) (spec etag : String) (o : Overlay)
      → Ended r m (rebuild_at r m now spec etag o)
  unfolding rebuild
  rebuild-Ended r m now spec etag o =
      elim (Option-cases (
        apply_overlay update_upstream remove_upstream apply_overlay_bytes build_entries cfg spec
          o.bytes)) [
            | inl bad ↦ rw (bad, rebuild) (gave_up refl (inl refl) refl)
            | inr (merged, good) ↦ elim (Option-cases (build_entries merged)) [
              | inl bad ↦ rw (good, bad, rebuild) (gave_up refl (inl refl) refl)
              | inr (built, done) ↦
                  rw (good, done, rebuild) (publish-Ended r m now spec etag o built)
            ]
          ]

  -- Every refresh ends so, whatever the network answers.
  pub refresh-Ended : (r : Refresher) (m : M) (tick : Tick) → Ended r m (refresh_at r m tick)
  unfolding refresh
  refresh-Ended r m tick = elim (Option-cases (spec_or_cached r.current tick.spec)) [
    | inl bad ↦ rw (bad, refresh) (gave_up refl (inl refl) refl)
    | inr ((spec, etag), got) ↦
        elim (Bool-cases
          (is_not_modified tick.spec && not (should_refresh_overlay cfg r tick.now))) [
            | inl idle ↦ rw (got, refresh) (rw idle (unchanged refl refl refl))
            | inr more ↦ elim (Option-cases (fetch_overlay cfg r tick)) [
              | inl bad ↦
                  rw (got, refresh) (rw more (rw (bad, refresh) (gave_up refl (inl refl) refl)))
              | inr (o, good) ↦
                  rw (got, refresh)
                    (rw more (rw (good, refresh) (rebuild-Ended r m tick.ended spec etag o)))
            ]
          ]
  ]

  -- A refresh that fails leaves the snapshot, the flags and the overlay's time as they were, and
  -- the manager was not told or did not accept; one
  -- that succeeds either changes nothing and tells the manager nothing, or has published: the
  -- manager accepted exactly the tools and the root of the new snapshot, and the upstream is no
  -- longer degraded.
  pub refresh_atomic :
      (r : Refresher) (m : M) (tick : Tick)
      → (((refresh_at r m tick).2 ≡ false)
          × ((refresh_at r m tick).0 ≡ r)
          × Refused m (refresh_at r m tick).1)
        ⊎ (((refresh_at r m tick).2 ≡ true)
            × ((refresh_at r m tick).0 ≡ r)
            × ((refresh_at r m tick).1 ≡ m))
        ⊎ (((refresh_at r m tick).2 ≡ true)
            × (update_upstream cfg.name
                  (refresh_at r m tick).0.current.compiled_tools
                  (refresh_at r m tick).0.current.spec_yaml_root
                  m
                ≡ ((refresh_at r m tick).1, true))
            × ((refresh_at r m tick).0.degraded ≡ false))
  refresh_atomic r m tick = go (refresh_at r m tick) (refresh-Ended r m tick)
    where
      go :
          (out : Refresher × M × Bool)
          → Ended r m out
          → ((out.2 ≡ false) × (out.0 ≡ r) × Refused m out.1)
            ⊎ ((out.2 ≡ true) × (out.0 ≡ r) × (out.1 ≡ m))
            ⊎ ((out.2 ≡ true)
                × (update_upstream cfg.name out.0.current.compiled_tools
                      out.0.current.spec_yaml_root m
                    ≡ (out.1, true))
                × (out.0.degraded ≡ false))
      go out (unchanged a b c) = inr (inl (c, a, b))
      go out (gave_up a k b) = inl (b, a, k)
      go out (published a b c d) = inr (inr (d, a, b))

-- ===== src/Refresh/Preserved.antt =====
-- Predicates of the manager that updates and removals preserve, over ticks.
use mathlib.Core.Path.{subst}
use go_auto_mcp.Prelude.{
  ℕ, String, sym, ap, Bool, true, false, Option, List, [], ◌∷◌, inl, inr, Bool-cases, ltb, ◌&&◌,
  to_ℕ, ◌+◌,
}
use go_auto_mcp.Upstreams.Registry.{Entry}
use go_auto_mcp.Refresh.{
  ◌%◌, RefreshConfig, Refresher, Tick, after_refresh, on_tick, run_ticks, int32_mod, reaches,
}
use go_auto_mcp.Refresh.Publish.{Ended, unchanged, gave_up, published, refresh-Ended, refresh_at}

module _ {M : Type 0} (update_upstream : String → List Entry → Option ℕ → M → M × Bool)
    (remove_upstream : String → M → M) (apply_overlay_bytes : String → String → Option String)
    (build_entries : String → Option (List Entry × Option ℕ)) (cfg : RefreshConfig) (P : M → Type 0)
    (update_keeps : (entries : List Entry) (root : Option ℕ) (m : M)
      → P m
      → P (update_upstream cfg.name entries root m).0)
    (remove_keeps : (m : M) → P m → P (remove_upstream cfg.name m)) where
  ended_keeps :
      (r : Refresher) (m : M) (out : Refresher × M × Bool)
      → Ended update_upstream remove_upstream apply_overlay_bytes build_entries cfg r m out
      → P m
      → P out.1
  ended_keeps r m out (unchanged a b c) h = subst P (sym b) h
  ended_keeps r m out (gave_up a (inl b) c) h = subst P (sym b) h
  ended_keeps r m out (gave_up a (inr (entries, root, b)) c) h =
      subst P (ap (λ x. x.0) b) (update_keeps entries root m h)
  ended_keeps r m out (published a b c d) h = subst P (ap (λ x. x.0) a) (update_keeps _ _ m h)

  after_keeps :
      (out : Refresher × M × Bool)
      → P out.1
      → P
          (after_refresh update_upstream remove_upstream apply_overlay_bytes build_entries cfg
            out).1
  unfolding after_refresh
  after_keeps (r, m, true) h = h
  after_keeps (r, m, false) h =
      let count = (r.failures + 1) % int32_mod in
      let max = to_ℕ cfg.max_refresh_failures in
      elim (Bool-cases (ltb 0 max && reaches count max)) [
        | inl over ↦ rw (over, after_refresh) (remove_keeps m h)
        | inr under ↦ rw (under, after_refresh) h
      ]

  pub run_ticks_keeps :
      (ticks : List Tick) (r : Refresher) (m : M)
      → P m
      → P
          (run_ticks update_upstream remove_upstream apply_overlay_bytes build_entries cfg r m
            ticks).1
  unfolding run_ticks on_tick
  run_ticks_keeps [] r m h = h
  run_ticks_keeps (tick ∷ ticks) r m h =
      let out =
        refresh_at update_upstream remove_upstream apply_overlay_bytes build_entries cfg r m tick in
      let ended =
        refresh-Ended update_upstream remove_upstream apply_overlay_bytes build_entries cfg r m
          tick in
      let next =
        after_refresh update_upstream remove_upstream apply_overlay_bytes build_entries cfg out in
      run_ticks_keeps ticks next.0 next.1 (after_keeps out (ended_keeps r m out ended h))

-- ===== src/Refresh/Health.antt =====
-- The failure counter, the degraded flag, and what readiness makes of them.
use go_auto_mcp.Prelude.{
  ℕ, suc, ◌+◌, ◌<◌, String, ◌≡◌, refl, ap, ◌∙◌, Bool, true, false, not, Option, List, [], ◌∷◌,
  length, All, arith, to_ℕ,
}
use go_auto_mcp.Upstreams.Registry.{Entry}
use go_auto_mcp.Refresh.{
  RefreshConfig, Refresher, Tick, Fetch, failed, after_refresh, on_tick, refresh, run_ticks,
  is_healthy,
}
use go_auto_mcp.Refresh.Publish.{Ended, unchanged, gave_up, published, refresh-Ended, refresh_at}

module _ {M : Type 0} (update_upstream : String → List Entry → Option ℕ → M → M × Bool)
    (remove_upstream : String → M → M) (apply_overlay_bytes : String → String → Option String)
    (build_entries : String → Option (List Entry × Option ℕ)) (cfg : RefreshConfig) where
  abbrev tick_at : Refresher → M → Tick → Refresher × M
  tick_at = on_tick update_upstream remove_upstream apply_overlay_bytes build_entries cfg

  abbrev run_at : Refresher → M → List Tick → Refresher × M
  run_at = run_ticks update_upstream remove_upstream apply_overlay_bytes build_entries cfg

  abbrev after_at : Refresher × M × Bool → Refresher × M
  after_at = after_refresh update_upstream remove_upstream apply_overlay_bytes build_entries cfg

  after_refresh_bound :
      (out : Refresher × M × Bool)
      → 0 < to_ℕ cfg.max_refresh_failures
      → to_ℕ cfg.max_refresh_failures < 2147483648
      → out.0.failures < to_ℕ cfg.max_refresh_failures
      → (after_at out).0.failures < to_ℕ cfg.max_refresh_failures
  unfolding after_refresh
  after_refresh_bound (r, m, true) pos fits below = pos
  after_refresh_bound (r, m, false) pos fits below = ground arith

  Ended-failures :
      (r : Refresher) (m : M) (out : Refresher × M × Bool)
      → Ended update_upstream remove_upstream apply_overlay_bytes build_entries cfg r m out
      → out.0.failures ≡ r.failures
  Ended-failures r m out (unchanged a b c) = ap (λ x. x.failures) a
  Ended-failures r m out (gave_up a k b) = ap (λ x. x.failures) a
  Ended-failures r m out (published a b c d) = c

  run_bound :
      (r : Refresher) (m : M) (ticks : List Tick)
      → 0 < to_ℕ cfg.max_refresh_failures
      → to_ℕ cfg.max_refresh_failures < 2147483648
      → r.failures < to_ℕ cfg.max_refresh_failures
      → (run_at r m ticks).0.failures < to_ℕ cfg.max_refresh_failures
  unfolding run_ticks on_tick
  run_bound r m [] pos fits below = below
  run_bound r m (tick ∷ ticks) pos fits below =
      let out =
        refresh_at update_upstream remove_upstream apply_overlay_bytes build_entries cfg r m tick in
      let same = Ended-failures r m out (
        refresh-Ended update_upstream remove_upstream apply_overlay_bytes build_entries cfg r m
          tick) in
      run_bound (after_at out).0 (after_at out).1 ticks pos fits
        (after_refresh_bound out pos fits (omega (arith, same)))

  -- With a positive limit within the counter's range, and from a counter below it, the counter
  -- never shows at the limit: after any ticks the upstream is healthy exactly if it is not degraded.
  pub is_healthy-eq-not_degraded :
      (r : Refresher) (m : M) (ticks : List Tick)
      → 0 < to_ℕ cfg.max_refresh_failures
      → to_ℕ cfg.max_refresh_failures < 2147483648
      → r.failures < to_ℕ cfg.max_refresh_failures
      → is_healthy cfg (run_at r m ticks).0 ≡ not (run_at r m ticks).0.degraded
  is_healthy-eq-not_degraded r m ticks pos fits below =
      let end = run_at r m ticks in healthy_below end.0 pos (run_bound r m ticks pos fits below)
    where
      healthy_below :
          (r : Refresher)
          → 0 < to_ℕ cfg.max_refresh_failures
          → r.failures < to_ℕ cfg.max_refresh_failures
          → is_healthy cfg r ≡ not r.degraded
      healthy_below r pos below = unfold is_healthy in ground arith

  failed_tick :
      (r : Refresher) (m : M) (tick : Tick)
      → tick.spec ≡ failed
      → tick_at r m tick ≡ after_at (r, m, false)
  unfolding on_tick refresh
  failed_tick r m tick h = ap after_at (fails tick.spec h)
    where
      fails :
          (f : Fetch)
          → f ≡ failed
          → refresh_at update_upstream remove_upstream apply_overlay_bytes build_entries cfg r m
              (record tick { spec = f })
            ≡ (r, m, false)
      fails f e = rw e refl

  abbrev AllFailed : List Tick → Type 0
  AllFailed = All (λ t. t.spec ≡ failed)

  after_failure_below :
      (r : Refresher) (m : M)
      → to_ℕ cfg.max_refresh_failures < 2147483648
      → r.failures + 1 < to_ℕ cfg.max_refresh_failures
      → after_at (r, m, false) ≡ (record r { failures = r.failures + 1 }, m)
  unfolding after_refresh
  after_failure_below r m fits below = ground arith

  after_failure_limit :
      (r : Refresher) (m : M)
      → to_ℕ cfg.max_refresh_failures < 2147483648
      → r.failures + 1 ≡ to_ℕ cfg.max_refresh_failures
      → after_at (r, m, false)
        ≡ (record r { failures = 0; degraded = true }, remove_upstream cfg.name m)
  unfolding after_refresh
  after_failure_limit r m fits reached = ground arith

  -- As long as fewer fetches in a row have failed than the limit allows, failing ticks only count.
  pub failures_below :
      (r : Refresher) (m : M) (ticks : List Tick)
      → AllFailed ticks
      → to_ℕ cfg.max_refresh_failures < 2147483648
      → r.failures + length ticks < to_ℕ cfg.max_refresh_failures
      → run_at r m ticks ≡ (record r { failures = r.failures + length ticks }, m)
  unfolding run_ticks
  failures_below r m [] h fits below = λ i. (record r { failures = e i }, m)
    where
      e : r.failures ≡ r.failures + 0
      e = omega arith
  failures_below r m (tick ∷ ticks) h fits below =
      let next = record r { failures = r.failures + 1 } in
      let step : tick_at r m tick ≡ (next, m) =
        failed_tick r m tick h.0 ∙ after_failure_below r m fits (omega arith) in
      ap (λ x. run_at x.0 x.1 ticks) step
      ∙ (failures_below next m ticks h.1 fits (omega arith) ∙ regroup)
    where
      count : r.failures + 1 + length ticks ≡ r.failures + suc (length ticks)
      count = omega arith

      regroup :
          ◌≡◌ {A = Refresher × M}
            (record r { failures = r.failures + 1 + length ticks }, m)
            (record r { failures = r.failures + suc (length ticks) }, m)
      regroup = λ i. (record r { failures = count i }, m)

  -- The failed fetch that reaches the limit removes the upstream, marks it degraded and starts
  -- the count again.
  pub failures_reach :
      (r : Refresher) (m : M) (ticks : List Tick) (last : Tick)
      → AllFailed ticks
      → last.spec ≡ failed
      → to_ℕ cfg.max_refresh_failures < 2147483648
      → r.failures + length ticks + 1 ≡ to_ℕ cfg.max_refresh_failures
      → (let end = run_at r m ticks in tick_at end.0 end.1 last)
        ≡ (record r { failures = 0; degraded = true }, remove_upstream cfg.name m)
  failures_reach r m ticks last h k fits reached =
      let counted = record r { failures = r.failures + length ticks } in
      ap (λ x. tick_at x.0 x.1 last) (failures_below r m ticks h fits (omega arith))
      ∙ (failed_tick counted m last k ∙ after_failure_limit counted m fits reached)

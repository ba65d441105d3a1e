-- ===== src/Refresh/Recovery.antt =====
-- How a degraded upstream comes back, and how it does not.
use mathlib.Core.Path.{subst}
use go_auto_mcp.Prelude.{
  sym, inl, inr, ℕ, String, ◌≡◌, refl, ap, ◌∙◌, Bool, true, false, Option, none, List, [], ◌∷◌, All,
  arith, if◌then◌else◌,
}
use go_auto_mcp.Upstreams.Registry.{Entry}
use go_auto_mcp.Refresh.{
  RefreshConfig, Refresher, Tick, Fetch, not_modified, should_refresh_overlay, after_refresh,
  on_tick, refresh, run_ticks,
}
use go_auto_mcp.Refresh.Publish.{Ended, unchanged, gave_up, published, refresh-Ended, refresh_at}

-- What the refresher told the manager: an update that the manager accepted, or a removal.
pub data Call : Type 0 where
  updated removed : Call

abbrev pub last_removed : List Call → Bool
last_removed [] = false
last_removed (removed ∷ log) = true
last_removed (updated ∷ log) = false

-- A manager that records what it is told, but for the updates that it refuses, by any rule.
abbrev pub logged_update :
    (String → List Entry → Option ℕ → List Call → Bool)
    → String
    → List Entry
    → Option ℕ
    → List Call
    → List Call × Bool
logged_update accepts name entries root log =
    if accepts name entries root log then (updated ∷ log, true) else (log, false)

-- RemoveUpstream returns nothing, and a removal counts as told whether it takes effect or not.
abbrev pub logged_remove : String → List Call → List Call
logged_remove name log = removed ∷ log

module _ (accepts : String → List Entry → Option ℕ → List Call → Bool)
    (apply_overlay_bytes : String → String → Option String)
    (build_entries : String → Option (List Entry × Option ℕ)) (cfg : RefreshConfig) where
  abbrev logged_run : Refresher → List Call → List Tick → Refresher × List Call
  logged_run = run_ticks (logged_update accepts) logged_remove apply_overlay_bytes build_entries cfg

  abbrev logged_after : Refresher × List Call × Bool → Refresher × List Call
  logged_after =
      after_refresh (logged_update accepts) logged_remove apply_overlay_bytes build_entries cfg

  abbrev logged_refresh : Refresher → List Call → Tick → Refresher × List Call × Bool
  logged_refresh =
      refresh_at (logged_update accepts) logged_remove apply_overlay_bytes build_entries cfg

  abbrev LoggedEnd : Refresher → List Call → Refresher × List Call × Bool → Type 0
  LoggedEnd = Ended (logged_update accepts) logged_remove apply_overlay_bytes build_entries cfg

  -- a refused update is not in the log
  refused_log :
      (log log' : List Call) (entries : List Entry) (root : Option ℕ)
      → logged_update accepts cfg.name entries root log ≡ (log', false)
      → log' ≡ log
  refused_log log log' entries root h = ground arith

  accepted_log :
      (log log' : List Call) (entries : List Entry) (root : Option ℕ)
      → logged_update accepts cfg.name entries root log ≡ (log', true)
      → log' ≡ updated ∷ log
  accepted_log log log' entries root h = ground arith

  refresh_follows :
      (r : Refresher) (log : List Call) (out : Refresher × List Call × Bool)
      → LoggedEnd r log out
      → r.degraded ≡ last_removed log
      → out.0.degraded ≡ last_removed out.1
  refresh_follows r log out (unchanged a b c) h =
      ap (λ x. x.degraded) a ∙ (h ∙ ap last_removed (sym b))
  refresh_follows r log out (gave_up a (inl b) c) h =
      ap (λ x. x.degraded) a ∙ (h ∙ ap last_removed (sym b))
  refresh_follows r log out (gave_up a (inr (entries, root, b)) c) h =
      ap (λ x. x.degraded) a ∙ (h ∙ ap last_removed (sym (refused_log log out.1 entries root b)))
  refresh_follows r log out (published a b c d) h =
      b ∙ ap last_removed (sym (accepted_log log out.1 _ _ a))

  after_follows :
      (out : Refresher × List Call × Bool)
      → out.0.degraded ≡ last_removed out.1
      → (logged_after out).0.degraded ≡ last_removed (logged_after out).1
  unfolding after_refresh
  after_follows (r, log, true) h = h
  after_follows (r, log, false) h = ground arith

  -- If the degraded flag says whether the last thing that the refresher told the manager, refused
  -- updates aside, was to remove the upstream, whether or not the removal took effect, then it says
  -- so after any ticks.
  pub degraded-eq-last_removed :
      (r : Refresher) (log : List Call) (ticks : List Tick)
      → r.degraded ≡ last_removed log
      → (logged_run r log ticks).0.degraded ≡ last_removed (logged_run r log ticks).1
  unfolding run_ticks on_tick
  degraded-eq-last_removed r log [] h = h
  degraded-eq-last_removed r log (tick ∷ ticks) h =
      let out = logged_refresh r log tick in
      let ended =
        refresh-Ended (logged_update accepts) logged_remove apply_overlay_bytes build_entries cfg r
          log tick in
      degraded-eq-last_removed (logged_after out).0 (logged_after out).1 ticks
        (after_follows out (refresh_follows r log out ended h))

module _ {M : Type 0} (update_upstream : String → List Entry → Option ℕ → M → M × Bool)
    (remove_upstream : String → M → M) (apply_overlay_bytes : String → String → Option String)
    (build_entries : String → Option (List Entry × Option ℕ)) (cfg : RefreshConfig) where
  not_modified_refresh :
      (r : Refresher) (m : M) (tick : Tick) (f : Fetch)
      → f ≡ not_modified
      → should_refresh_overlay cfg r tick.now ≡ false
      → refresh update_upstream remove_upstream apply_overlay_bytes build_entries cfg r m
          (record tick { spec = f })
        ≡ (r, m, true)
  unfolding refresh
  not_modified_refresh r m tick f e idle = rw e (rw idle refl)

  not_modified_tick :
      (r : Refresher) (m : M) (tick : Tick)
      → cfg.overlay ≡ none
      → tick.spec ≡ not_modified
      → on_tick update_upstream remove_upstream apply_overlay_bytes build_entries cfg r m tick
        ≡ (record r { failures = 0 }, m)
  unfolding on_tick
  not_modified_tick r m tick plain same =
      let idle : should_refresh_overlay cfg r tick.now ≡ false =
        unfold should_refresh_overlay in ground arith in
      ap (after_refresh update_upstream remove_upstream apply_overlay_bytes build_entries cfg)
        (not_modified_refresh r m tick tick.spec same idle)

  -- While the spec server answers 304, an upstream without an overlay stays as it is: the manager
  -- is told nothing, and a degraded upstream stays degraded.
  pub not_modified_keeps :
      (r : Refresher) (m : M) (ticks : List Tick)
      → cfg.overlay ≡ none
      → All (λ t. t.spec ≡ not_modified) ticks
      → ((run_ticks update_upstream remove_upstream apply_overlay_bytes build_entries cfg r m
            ticks).1
          ≡ m)
        × ((run_ticks update_upstream remove_upstream apply_overlay_bytes build_entries cfg r m
              ticks).0.degraded
            ≡ r.degraded)
  unfolding run_ticks
  not_modified_keeps r m [] plain h = (refl, refl)
  not_modified_keeps r m (tick ∷ ticks) plain h =
      subst
        (λ x.
          ((run_ticks update_upstream remove_upstream apply_overlay_bytes build_entries cfg x.0 x.1
              ticks).1
            ≡ m)
          × ((run_ticks update_upstream remove_upstream apply_overlay_bytes build_entries cfg x.0
                x.1 ticks).0.degraded
              ≡ r.degraded))
        (sym (not_modified_tick r m tick plain h.0))
        (not_modified_keeps (record r { failures = 0 }) m ticks plain h.1)

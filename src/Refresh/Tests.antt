-- ===== src/Refresh/Tests.antt =====
-- An upstream with a limit of two failures, whose server answers with what each tick says.
use go_auto_mcp.Prelude.{
  ℕ, String, ◌≡◌, refl, Bool, true, false, Option, none, some, List, [], ◌∷◌, pos, ◌⊎◌,
}
use go_auto_mcp.Upstreams.Registry.{Entry}
use go_auto_mcp.Refresh.{
  RefreshConfig, Refresher, Tick, fetched, not_modified, failed, run_ticks, is_healthy, refresh,
}
use go_auto_mcp.Refresh.Publish.{refresh_atomic, Refused}
use go_auto_mcp.Refresh.Recovery.{
  not_modified_keeps, Call, removed, last_removed, logged_update, logged_remove,
  degraded-eq-last_removed,
}

abbrev always : String → List Entry → Option ℕ → List Call → Bool
always name entries root log = true

abbrev no_merge : String → String → Option String
no_merge spec overlay = none

abbrev no_tools : String → Option (List Entry × Option ℕ)
no_tools bytes = some ([], none)

abbrev two : RefreshConfig
two = record { name = "pets"; max_refresh_failures = pos 2; overlay = none }

abbrev start : Refresher
start = record {
  current = record {
    compiled_tools = [];
    spec_yaml_root = none;
    spec_etag = "v1";
    overlay_etag = "";
    cached_spec_bytes = "{}";
    cached_overlay_bytes = none;
  };
  failures = 0;
  degraded = false;
  last_overlay_fetch = none;
}

abbrev down : Tick
down = record { now = 1; asked_again = 1; ended = 1; spec = failed; overlay = failed }

abbrev same : Tick
same = record { now = 2; asked_again = 2; ended = 2; spec = not_modified; overlay = failed }

abbrev news : Tick
news = record { now = 3; asked_again = 3; ended = 3; spec = fetched "{}" "v2"; overlay = failed }

abbrev after : List Tick → Refresher × List Call
after ticks = run_ticks (logged_update always) logged_remove no_merge no_tools two start [] ticks

outage :
    (is_healthy two (after (down ∷ down ∷ [])).0 ≡ false)
    × ((after (down ∷ down ∷ [])).1 ≡ removed ∷ [])
unfolding run_ticks is_healthy
outage = (refl, refl)

back_unchanged : is_healthy two (after (down ∷ down ∷ same ∷ same ∷ [])).0 ≡ false
unfolding run_ticks is_healthy
back_unchanged = refl

back_changed : is_healthy two (after (down ∷ down ∷ news ∷ [])).0 ≡ true
unfolding run_ticks is_healthy
back_changed = refl

degraded-eq-last_removed_example :
    (after (down ∷ down ∷ [])).0.degraded ≡ last_removed (after (down ∷ down ∷ [])).1
degraded-eq-last_removed_example =
    degraded-eq-last_removed always no_merge no_tools two start [] (down ∷ down ∷ []) refl

abbrev fallen : Refresher
fallen = record start { degraded = true }

abbrev refreshed : Refresher × List Call × Bool
refreshed = refresh (logged_update always) logged_remove no_merge no_tools two start [] news

refresh_atomic_example :
    ((refreshed.2 ≡ false)
      × (refreshed.0 ≡ start)
      × Refused (logged_update always) logged_remove no_merge no_tools two [] refreshed.1)
    ⊎ ((refreshed.2 ≡ true) × (refreshed.0 ≡ start) × (refreshed.1 ≡ []))
    ⊎ ((refreshed.2 ≡ true)
        × (logged_update always "pets" refreshed.0.current.compiled_tools
              refreshed.0.current.spec_yaml_root []
            ≡ (refreshed.1, true))
        × (refreshed.0.degraded ≡ false))
refresh_atomic_example =
    refresh_atomic (logged_update always) logged_remove no_merge no_tools two start [] news

not_modified_keeps_example :
    ((run_ticks
        (logged_update always)
        logged_remove
        no_merge
        no_tools
        two
        fallen
        (removed ∷ [])
        (same ∷ [])).1
      ≡ removed ∷ [])
    × ((run_ticks
          (logged_update always)
          logged_remove
          no_merge
          no_tools
          two
          fallen
          (removed ∷ [])
          (same ∷ [])).0.degraded
        ≡ true)
not_modified_keeps_example =
    not_modified_keeps (logged_update always) logged_remove no_merge no_tools two fallen
      (removed ∷ []) (same ∷ []) refl (refl, tt)

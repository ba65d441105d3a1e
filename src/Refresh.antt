-- ===== src/Refresh.antt =====
-- pkg/upstream/http/refresh.go: the background refresh of one upstream's spec, tick by tick.
-- A tick carries what the network answered and the clock. The overlay merge and the tool pipeline
-- are arguments, and so is the registry manager, as the interface RegistryManager has it.
pub mod Health
pub mod Publish
pub mod Preserved
pub mod Recovery
mod Tests
use go_auto_mcp.Prelude.{
  ℕ, ◌+◌, ◌-◌, String, Bool, true, false, not, ◌&&◌, Option, none, some, List, [], ◌∷◌, string_eq,
  ◌==◌, leb, ltb, if◌then◌else◌, ℤ, to_ℕ,
}
use Prim.Native.Nat.{◌%◌, ◌^◌}
use go_auto_mcp.Upstreams.Registry.{Entry}

-- what a refresh keeps of the spec, the overlay and the tools built from them
pub record Snapshot : Type 0 where
  pub compiled_tools : List Entry
  pub spec_yaml_root : Option ℕ
  pub spec_etag : String
  pub overlay_etag : String
  pub cached_spec_bytes : String
  pub cached_overlay_bytes : Option String

-- the upstream's configuration; an overlay is its refresh interval
pub record RefreshConfig : Type 0 where
  pub name : String
  pub max_refresh_failures : ℤ
  pub overlay : Option ℤ

-- `failures` is an int32, as its bit pattern; there is no last fetch while its time is the zero time.
pub record Refresher : Type 0 where
  pub current : Snapshot
  pub failures : ℕ
  pub degraded : Bool
  pub last_overlay_fetch : Option ℕ

-- the answer to a conditional GET
pub data Fetch : Type 0 where
  fetched : String → String → Fetch
  not_modified : Fetch
  failed : Fetch

-- a tick, with the times at which refresh asks whether the overlay is due, asks that again in
-- fetchOverlay, and ends
pub record Tick : Type 0 where
  pub now : ℕ
  pub asked_again : ℕ
  pub ended : ℕ
  pub spec : Fetch
  pub overlay : Fetch

pub record Overlay : Type 0 where
  pub bytes : Option String
  pub etag : String
  pub was_fetched : Bool

abbrev pub int32_mod : ℕ
int32_mod = 2 ^ 32

-- `int(count) >= max` for a positive limit; from 2^31 on the pattern is a negative number
abbrev pub reaches : ℕ → ℕ → Bool
reaches count max = ltb count 2147483648 && leb max count

-- whether an interval has passed since a time; the zero time is always longer ago
abbrev pub has_passed : ℕ → ℕ → Option ℕ → Bool
has_passed interval now none = true
has_passed interval now (some t) = leb interval (now - t)

pub should_refresh_overlay : RefreshConfig → Refresher → ℕ → Bool
should_refresh_overlay cfg r now = elim cfg.overlay [
  | none ↦ false
  | some interval ↦
      if leb (to_ℕ interval) 0 then true else has_passed (to_ℕ interval) now r.last_overlay_fetch
]

-- the overlay of the previous snapshot
abbrev pub cached_overlay : Refresher → Bool → Overlay
cached_overlay r polled = record {
  bytes = r.current.cached_overlay_bytes;
  etag = r.current.overlay_etag;
  was_fetched = polled;
}

pub fetch_overlay : RefreshConfig → Refresher → Tick → Option Overlay
unfolding should_refresh_overlay
fetch_overlay cfg r tick = elim cfg.overlay [
  | none ↦ some (record { bytes = none; etag = ""; was_fetched = false })
  | some interval ↦
      if not (should_refresh_overlay cfg r tick.asked_again)
      then some (cached_overlay r false)
      else elim tick.overlay [
        | failed ↦ none
        | not_modified ↦ some (cached_overlay r true)
        | fetched bytes etag ↦ some (record { bytes = some bytes; etag = etag; was_fetched = true })
      ]
]

-- the spec bytes and the etag to go on with
abbrev pub spec_or_cached : Snapshot → Fetch → Option (String × String)
spec_or_cached prev failed = none
spec_or_cached prev not_modified = some (prev.cached_spec_bytes, prev.spec_etag)
spec_or_cached prev (fetched bytes etag) = some (bytes, if etag == "" then prev.spec_etag else etag)

abbrev pub is_not_modified : Fetch → Bool
is_not_modified not_modified = true
is_not_modified (fetched bytes etag) = false
is_not_modified failed = false

module _ {M : Type 0} (update_upstream : String → List Entry → Option ℕ → M → M × Bool)
    (remove_upstream : String → M → M) (apply_overlay_bytes : String → String → Option String)
    (build_entries : String → Option (List Entry × Option ℕ)) (cfg : RefreshConfig) where
  abbrev pub apply_overlay : String → Option String → Option String
  apply_overlay spec none = some spec
  apply_overlay spec (some overlay) = apply_overlay_bytes spec overlay

  -- steps 6 to 8: the manager is told first, and the snapshot changes only if it accepts
  pub publish :
      Refresher → M → ℕ → String → String → Overlay → List Entry × Option ℕ → Refresher × M × Bool
  publish r m now spec etag overlay (entries, root) =
      let (m', accepted) = update_upstream cfg.name entries root m in
      if not accepted then (r, m', false) else (
        record r {
          current = record {
            compiled_tools = entries;
            spec_yaml_root = root;
            spec_etag = etag;
            overlay_etag = overlay.etag;
            cached_spec_bytes = spec;
            cached_overlay_bytes = overlay.bytes;
          };
          degraded = false;
          last_overlay_fetch = if overlay.was_fetched then some now else r.last_overlay_fetch;
        },
        m',
        true,
      )

  -- steps 3 to 8
  pub rebuild : Refresher → M → ℕ → String → String → Overlay → Refresher × M × Bool
  unfolding publish
  rebuild r m now spec etag overlay = elim (apply_overlay spec overlay.bytes) [
    | none ↦ (r, m, false)
    | some merged ↦ elim (build_entries merged) [
      | none ↦ (r, m, false)
      | some built ↦ publish r m now spec etag overlay built
    ]
  ]

  -- `refresh`; the Boolean tells that no error came back
  pub refresh : Refresher → M → Tick → Refresher × M × Bool
  unfolding should_refresh_overlay fetch_overlay rebuild
  refresh r m tick = elim (spec_or_cached r.current tick.spec) [
    | none ↦ (r, m, false)
    | some (spec, etag) ↦
        if is_not_modified tick.spec && not (should_refresh_overlay cfg r tick.now)
        then (r, m, true)
        else elim (fetch_overlay cfg r tick) [
          | none ↦ (r, m, false)
          | some overlay ↦ rebuild r m tick.ended spec etag overlay
        ]
  ]

  -- what the loop does with the error, or without one
  pub after_refresh : Refresher × M × Bool → Refresher × M
  after_refresh (r, m, true) = (record r { failures = 0 }, m)
  after_refresh (r, m, false) =
      let count = (r.failures + 1) % int32_mod in
      let max = to_ℕ cfg.max_refresh_failures in
      if ltb 0 max && reaches count max
      then (record r { failures = 0; degraded = true }, remove_upstream cfg.name m)
      else (record r { failures = count }, m)

  -- one `case <-ticker.C`
  pub on_tick : Refresher → M → Tick → Refresher × M
  unfolding refresh after_refresh
  on_tick r m tick = after_refresh (refresh r m tick)

  pub run_ticks : Refresher → M → List Tick → Refresher × M
  unfolding on_tick
  run_ticks r m [] = (r, m)
  run_ticks r m (tick ∷ ticks) = let (r', m') = on_tick r m tick in run_ticks r' m' ticks

unfoldable pub is_healthy : RefreshConfig → Refresher → Bool
is_healthy cfg r =
    let max = to_ℕ cfg.max_refresh_failures in
    if r.degraded then false else if leb max 0 then true else not (reaches r.failures max)

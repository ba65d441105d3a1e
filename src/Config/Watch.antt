-- ===== src/Config/Watch.antt =====
-- pkg/config/loader.go, Loader: the first load, and Watch with its debounce timer, in
-- milliseconds. Each time the timer fires a reload of its own runs beside the loop, so reloads may
-- overlap; the steps of all of them, the changes of the file and the events come in any order.
use go_auto_mcp.Prelude.{
  ℕ, zero, suc, Bool, true, false, Option, none, some, List, [], ◌∷◌, ◌++◌, Text, Result, ok, err,
  ◌>>=◌, if◌then◌else◌,
}

-- where a reload is: it has not read the file, it has loaded a configuration, or onLoad has
-- accepted that
pub data Reload (C : Type 0) : Type 0 where
  started : Reload C
  loaded : C → Reload C
  accepted : C → Reload C

pub data Action (F : Type 0) : Type 0 where
  file_change : F → Action F
  create_or_write other_event tick cancel closed : Action F
  reload_step : ℕ → Action F

pub record Watcher (F C M : Type 0) : Type 0 where
  pub file : F
  pub timer : Option ℕ
  pub reloads : List (Reload C)
  pub current : C
  pub manager : M
  pub running : Bool

-- 500 * time.Millisecond
abbrev pub debounce : ℕ
debounce = 500

abbrev pub first_accepted :
    {F C M : Type 0} → F → C → Result Text Unit × M → Result Text (Watcher F C M)
first_accepted f c (err e, m) = err e
first_accepted f c (ok u, m) =
    ok (record { file = f; timer = none; reloads = []; current = c; manager = m; running = true })

module _ {F C M : Type 0} (load : F → Result Text C) (on_load : C → M → Result Text Unit × M) where
  -- NewLoader, and the start of Watch
  unfoldable pub new_loader : F → M → Result Text (Watcher F C M)
  new_loader f m = load f >>= λ c. first_accepted f c (on_load c m)

-- what a step of a reload leaves: the reloads, the current configuration and the manager
pub record Shared (C M : Type 0) : Type 0 where
  pub reloads : List (Reload C)
  pub current : C
  pub manager : M

module _ {F C M : Type 0} where
  abbrev pub with_shared : Watcher F C M → Shared C M → Watcher F C M
  with_shared w s = record w { reloads = s.reloads; current = s.current; manager = s.manager }

  -- time passes by a millisecond
  abbrev pub on_tick : Option ℕ → Watcher F C M → Watcher F C M
  on_tick none w = w
  on_tick (some zero) w = record w { timer = none; reloads = w.reloads ++ (started ∷ []) }
  on_tick (some (suc zero)) w = record w { timer = none; reloads = w.reloads ++ (started ∷ []) }
  on_tick (some (suc (suc n))) w = record w { timer = some (suc n) }

module _ {C M : Type 0} where
  abbrev pub after_load : List (Reload C) → C → M → Result Text C → Shared C M
  after_load rs c m (err e) = record { reloads = rs; current = c; manager = m }
  after_load rs c m (ok new) = record { reloads = loaded new ∷ rs; current = c; manager = m }

  abbrev pub after_on_load : List (Reload C) → C → C → Result Text Unit × M → Shared C M
  after_on_load rs c new (err e, m) = record { reloads = rs; current = c; manager = m }
  after_on_load rs c new (ok u, m) = record {
    reloads = accepted new ∷ rs;
    current = c;
    manager = m;
  }

-- `load` and `on_load` give the errors that end a reload
module _ {F C M : Type 0} (load : F → Result Text C) (on_load : C → M → Result Text Unit × M) where
  -- tryReload, a step at a time; `rs` are the other reloads
  unfoldable pub try_reload : F → Reload C → List (Reload C) → C → M → Shared C M
  try_reload f started rs c m = after_load rs c m (load f)
  try_reload f (loaded new) rs c m = after_on_load rs c new (on_load new m)
  try_reload f (accepted new) rs c m = record { reloads = rs; current = new; manager = m }

  -- a step of the reload at a position
  unfoldable pub reload_at : F → ℕ → C → M → List (Reload C) → Shared C M
  unfolding try_reload
  reload_at f i c m [] = record { reloads = []; current = c; manager = m }
  reload_at f zero c m (r ∷ rs) = try_reload f r rs c m
  reload_at f (suc i) c m (r ∷ rs) =
      let t = reload_at f i c m rs in record t { reloads = r ∷ t.reloads }

  -- the loop of Watch, the timer's function and the world around them
  unfoldable pub step : Action F → Watcher F C M → Watcher F C M
  unfolding reload_at
  step (file_change f) w = record w { file = f }
  step create_or_write w = if w.running then record w { timer = some debounce } else w
  step other_event w = w
  step tick w = on_tick w.timer w
  step cancel w = record w { timer = none; running = false }
  step closed w = record w { running = false }
  step (reload_step i) w = with_shared w (reload_at w.file i w.current w.manager w.reloads)

  unfoldable pub run : List (Action F) → Watcher F C M → Watcher F C M
  unfolding step
  run [] w = w
  run (a ∷ rest) w = run rest (step a w)

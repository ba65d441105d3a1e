-- ===== src/Config/Accepted.antt =====
-- pkg/config/loader.go: the configuration in use is one that onLoad has accepted.
use go_auto_mcp.Prelude.{
  ℕ, zero, suc, ◌≡◌, refl, Bool, true, false, Option, none, some, List, [], ◌∷◌, Text, Result, ok,
  err, if◌then◌else◌, All, All-append, >>=-eq-ok, ok-injective, err-ne-ok,
}
use mathlib.Core.Path.{subst}
use go_auto_mcp.Config.Watch.{
  Reload, started, loaded, accepted, Action, file_change, create_or_write, other_event, tick,
  cancel, closed, reload_step, Watcher, first_accepted, new_loader, Shared, debounce, on_tick,
  after_load, after_on_load, try_reload, reload_at, step, run,
}

module _ {F C M : Type 0} (load : F → Result Text C) (on_load : C → M → Result Text Unit × M) where
  -- it was loaded from some content of the file, and onLoad has accepted it
  pub record Accepted (c : C) : Type 0 where
    pub file : F
    pub from_file : load file ≡ ok c
    pub before : M
    pub after : M
    pub taken : on_load c before ≡ (ok tt, after)

  -- what a reload under way has done
  pub data Sound : Reload C → Type 0 where
    at_start : Sound started
    at_load : {c : C} (f : F) → load f ≡ ok c → Sound (loaded c)
    at_end : {c : C} → Accepted c → Sound (accepted c)

  pub record SoundShared (s : Shared C M) : Type 0 where
    pub reloads : All Sound s.reloads
    pub current : Accepted s.current

  after_load-Sound :
      (rs : List (Reload C)) (c : C) (m : M) (f : F) (r : Result Text C)
      → All Sound rs
      → Accepted c
      → load f ≡ r
      → SoundShared (after_load rs c m r)
  after_load-Sound rs c m f (err e) all a h = record { reloads = all; current = a }
  after_load-Sound rs c m f (ok new) all a h = record { reloads = (at_load f h, all); current = a }

  after_on_load-Sound :
      (rs : List (Reload C)) (c new : C) (m : M) (f : F) (r : Result Text Unit × M)
      → All Sound rs
      → Accepted c
      → load f ≡ ok new
      → on_load new m ≡ r
      → SoundShared (after_on_load rs c new r)
  after_on_load-Sound rs c new m f (err e, m') all a l h = record { reloads = all; current = a }
  after_on_load-Sound rs c new m f (ok u, m') all a l h = record {
    reloads = (at_end (record { file = f; from_file = l; before = m; after = m'; taken = h }), all);
    current = a;
  }

  try_reload-Sound :
      (f : F) (r : Reload C) (rs : List (Reload C)) (c : C) (m : M)
      → Sound r
      → All Sound rs
      → Accepted c
      → SoundShared (try_reload load on_load f r rs c m)
  unfolding try_reload
  try_reload-Sound f started rs c m at_start all a = after_load-Sound rs c m f (load f) all a refl
  try_reload-Sound f (loaded new) rs c m (at_load g l) all a =
      after_on_load-Sound rs c new m g (on_load new m) all a l refl
  try_reload-Sound f (accepted new) rs c m (at_end b) all a = record { reloads = all; current = b }

  reload_at-Sound :
      (f : F) (i : ℕ) (c : C) (m : M) (rs : List (Reload C))
      → All Sound rs
      → Accepted c
      → SoundShared (reload_at load on_load f i c m rs)
  unfolding reload_at
  reload_at-Sound f i c m [] all a = record { reloads = tt; current = a }
  reload_at-Sound f zero c m (r ∷ rs) (sound, all) a = try_reload-Sound f r rs c m sound all a
  reload_at-Sound f (suc i) c m (r ∷ rs) (sound, all) a =
      let t = reload_at-Sound f i c m rs all a in
      record { reloads = (sound, t.reloads); current = t.current }

  pub record SoundWatcher (w : Watcher F C M) : Type 0 where
    pub reloads : All Sound w.reloads
    pub current : Accepted w.current

  SoundWatcher-if :
      (b : Bool) (v w : Watcher F C M)
      → SoundWatcher v
      → SoundWatcher w
      → SoundWatcher (if b then v else w)
  SoundWatcher-if true v w s t = s
  SoundWatcher-if false v w s t = t

  on_tick-Sound :
      (timer : Option ℕ) (w : Watcher F C M) → SoundWatcher w → SoundWatcher (on_tick timer w)
  on_tick-Sound none w s = s
  on_tick-Sound (some zero) w s = record {
    reloads = All-append Sound w.reloads (started ∷ []) s.reloads (at_start, tt);
    current = s.current;
  }
  on_tick-Sound (some (suc zero)) w s = record {
    reloads = All-append Sound w.reloads (started ∷ []) s.reloads (at_start, tt);
    current = s.current;
  }
  on_tick-Sound (some (suc (suc n))) w s = record { reloads = s.reloads; current = s.current }

  step-Sound :
      (a : Action F) (w : Watcher F C M) → SoundWatcher w → SoundWatcher (step load on_load a w)
  unfolding step
  step-Sound (file_change f) w s = record { reloads = s.reloads; current = s.current }
  step-Sound create_or_write w s =
      SoundWatcher-if w.running (record w { timer = some debounce }) w
        (record { reloads = s.reloads; current = s.current }) s
  step-Sound other_event w s = s
  step-Sound tick w s = on_tick-Sound w.timer w s
  step-Sound cancel w s = record { reloads = s.reloads; current = s.current }
  step-Sound closed w s = record { reloads = s.reloads; current = s.current }
  step-Sound (reload_step i) w s =
      let t = reload_at-Sound w.file i w.current w.manager w.reloads s.reloads s.current in
      record { reloads = t.reloads; current = t.current }

  run-Sound :
      (actions : List (Action F)) (w : Watcher F C M)
      → SoundWatcher w
      → SoundWatcher (run load on_load actions w)
  unfolding run
  run-Sound [] w s = s
  run-Sound (a ∷ rest) w s = run-Sound rest (step load on_load a w) (step-Sound a w s)

  first_accepted-Sound :
      (f : F) (c : C) (m : M) (r : Result Text Unit × M) (w : Watcher F C M)
      → load f ≡ ok c
      → on_load c m ≡ r
      → first_accepted f c r ≡ ok w
      → SoundWatcher w
  first_accepted-Sound f c m (err e, m') w l h first = absurd (err-ne-ok first)
  first_accepted-Sound f c m (ok u, m') w l h first =
      subst SoundWatcher (ok-injective first) (record {
        reloads = tt;
        current = record { file = f; from_file = l; before = m; after = m'; taken = h };
      })

  -- Whatever happens after a start that succeeded, in whatever order, the configuration in use is
  -- one that was loaded from some content of the file and that onLoad has accepted.
  pub run-Accepted :
      (f : F) (m : M) (w : Watcher F C M) (actions : List (Action F))
      → new_loader load on_load f m ≡ ok w
      → Accepted (run load on_load actions w).current
  unfolding new_loader
  run-Accepted f m w actions h =
      let (c, from_file, first) = >>=-eq-ok (load f) _ h in
      (run-Sound actions w
        (first_accepted-Sound f c m (on_load c m) w from_file refl first)).current

-- ===== src/Config/Quiet.antt =====
-- pkg/config/loader.go: after a change and a pause the configuration is loaded again.
use go_auto_mcp.Prelude.{
  ℕ, zero, suc, ◌≡◌, refl, ap, ◌∙◌, true, none, some, List, [], ◌∷◌, ◌++◌, Text, Result, ok,
}
use go_auto_mcp.Config.Watch.{
  Reload, started, Action, create_or_write, tick, reload_step, Watcher, with_shared, debounce,
  on_tick, after_load, after_on_load, try_reload, reload_at, step, run,
}

abbrev pub ticks : {F : Type 0} → ℕ → List (Action F)
ticks zero = []
ticks (suc n) = tick ∷ ticks n

module _ {F C M : Type 0} (load : F → Result Text C) (on_load : C → M → Result Text Unit × M) where
  run-append :
      (first then_ : List (Action F)) (w : Watcher F C M)
      → run load on_load (first ++ then_) w ≡ run load on_load then_ (run load on_load first w)
  unfolding run
  run-append [] then_ w = refl
  run-append (a ∷ first) then_ w = run-append first then_ (step load on_load a w)

  -- the timer fires with its last millisecond, and not before
  fires :
      (k : ℕ) (w : Watcher F C M)
      → w.timer ≡ some (suc k)
      → run load on_load (ticks (suc k)) w
        ≡ record w { timer = none; reloads = w.reloads ++ (started ∷ []) }
  unfolding run step
  fires zero w h = ap (λ t. on_tick t w) h
  fires (suc k) w h =
      ap (λ t. run load on_load (ticks (suc k)) (on_tick t w)) h
      ∙ fires k (record w { timer = some (suc k) }) refl

  -- A relevant event while Watch runs, followed by a pause of 500 ms, starts one more reload, of the
  -- file as it is then, whatever timer was running.
  pub reload_starts :
      (w : Watcher F C M)
      → w.running ≡ true
      → run load on_load (create_or_write ∷ ticks debounce) w
        ≡ record w { timer = none; reloads = w.reloads ++ (started ∷ []) }
  unfolding run step
  reload_starts w on =
      let armed : step load on_load create_or_write w ≡ record w { timer = some debounce } =
        simp on in
      ap (run load on_load (ticks debounce)) armed
      ∙ fires 499 (record w { timer = some debounce }) refl

  -- the steps of the only reload
  reload_runs :
      (w : Watcher F C M) (c : C) (m : M)
      → w.reloads ≡ started ∷ []
      → load w.file ≡ ok c
      → on_load c w.manager ≡ (ok tt, m)
      → run load on_load (reload_step 0 ∷ (reload_step 0 ∷ (reload_step 0 ∷ []))) w
        ≡ record w { reloads = []; current = c; manager = m }
  unfolding run step reload_at try_reload
  reload_runs w c m here from_file taken =
      let rest : List (Action F) = reload_step 0 ∷ (reload_step 0 ∷ []) in
      let a = λ (rs : List (Reload C)).
        run load on_load rest
          (with_shared w (reload_at load on_load w.file 0 w.current w.manager rs)) in
      let b = λ (r : Result Text C).
        run load on_load rest (with_shared w (after_load [] w.current w.manager r)) in
      let d = λ (r : Result Text Unit × M).
        run load on_load (reload_step 0 ∷ []) (with_shared w (after_on_load [] w.current c r)) in
      ap a here ∙ (ap b from_file ∙ ap d taken)

  -- A change while Watch runs and no reload is under way, followed by a pause of 500 ms and the
  -- steps of the reload, puts the file's configuration into use, where the file loads and onLoad
  -- accepts it.
  pub change_taken :
      (w : Watcher F C M) (c : C) (m : M)
      → w.running ≡ true
      → w.reloads ≡ []
      → load w.file ≡ ok c
      → on_load c w.manager ≡ (ok tt, m)
      → run load on_load
          ((create_or_write ∷ ticks debounce)
            ++ (reload_step 0 ∷ (reload_step 0 ∷ (reload_step 0 ∷ []))))
          w
        ≡ record w { timer = none; reloads = []; current = c; manager = m }
  change_taken w c m on idle from_file taken =
      let fired : Watcher F C M = record w {
        timer = none;
        reloads = w.reloads ++ (started ∷ []);
      } in
      run-append (create_or_write ∷ ticks debounce)
        (reload_step 0 ∷ (reload_step 0 ∷ (reload_step 0 ∷ []))) w
      ∙ (ap (run load on_load (reload_step 0 ∷ (reload_step 0 ∷ (reload_step 0 ∷ []))))
            (reload_starts w on)
          ∙ reload_runs fired c m (ap (λ rs. rs ++ (started ∷ [])) idle) from_file taken)

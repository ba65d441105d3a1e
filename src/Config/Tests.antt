-- ===== src/Config/Tests.antt =====
-- A file that holds a number, which is its configuration; onLoad keeps what it was given.
use go_auto_mcp.Prelude.{
  ℕ, true, none, List, [], ◌∷◌, ◌++◌, ◌≡◌, refl, Text, codes, Result, ok, err, nat_eq, ◌==◌,
  if◌then◌else◌,
}
use go_auto_mcp.Config.Watch.{
  file_change, create_or_write, reload_step, Watcher, started, debounce, new_loader, reload_at,
  try_reload, step, run,
}
use go_auto_mcp.Config.Accepted.{Accepted, run-Accepted}
use go_auto_mcp.Config.Quiet.{ticks, change_taken}

abbrev load : ℕ → Result Text ℕ
load f = if f == 0 then err (codes "no file") else ok f

abbrev on_load : ℕ → List ℕ → Result Text Unit × List ℕ
on_load c m = (ok tt, c ∷ m)

abbrev watcher : ℕ → Watcher ℕ ℕ (List ℕ)
watcher f = record {
  file = f;
  timer = none;
  reloads = [];
  current = 1;
  manager = 1 ∷ [];
  running = true;
}

run-Accepted_example :
    Accepted load on_load
      (run load on_load (file_change 2 ∷ (create_or_write ∷ [])) (watcher 1)).current
unfolding new_loader
run-Accepted_example =
    run-Accepted load on_load 1 [] (watcher 1) (file_change 2 ∷ (create_or_write ∷ [])) refl

change_taken_example :
    run load on_load
      ((create_or_write ∷ ticks debounce)
        ++ (reload_step 0 ∷ (reload_step 0 ∷ (reload_step 0 ∷ []))))
      (watcher 2)
    ≡ record {
      file = 2;
      timer = none;
      reloads = [];
      current = 2;
      manager = 2 ∷ (1 ∷ []);
      running = true;
    }
change_taken_example = change_taken load on_load (watcher 2) 2 (2 ∷ (1 ∷ [])) refl refl refl refl

-- two reloads overlap, and the older file stays in use: the first has loaded 2 when the file
-- becomes 3, and ends after the second
abbrev overlap : Watcher ℕ ℕ (List ℕ)
overlap =
    run load on_load
      (reload_step 0
        ∷ (file_change 3
            ∷ (reload_step 1
                ∷ (reload_step 1 ∷ (reload_step 1 ∷ (reload_step 0 ∷ (reload_step 0 ∷ [])))))))
      (record {
        file = 2;
        timer = none;
        reloads = started ∷ (started ∷ []);
        current = 1;
        manager = [];
        running = true;
      })

older_kept : (overlap.file ≡ 3) × (overlap.current ≡ 2)
unfolding run step reload_at try_reload
older_kept = (refl, refl)

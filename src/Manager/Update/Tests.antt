-- ===== src/Manager/Update/Tests.antt =====
-- Two upstreams behind one group.
use go_auto_mcp.Prelude.{
  pos, ◌≤◌, String, ◌≡◌, refl, true, false, Option, none, some, List, [], ◌∷◌, string_eq, nat_eq,
  lookup, insert, contains, ◌↔◌, ◌⊎◌, arith,
}
use go_auto_mcp.Upstreams.Registry.{Entry, Registry, JsonPath, compile_filters, new_from_entries}
use go_auto_mcp.Upstreams.Registry.Names.{Holds, entries_in}
use go_auto_mcp.Manager.{ℕ, call_tool, Manager}
use go_auto_mcp.Upstreams.Registry.Calls.{tools_for_group, ui_handler_for_tool}
use go_auto_mcp.Manager.Apply.{rate_limit_name}
use go_auto_mcp.Manager.Update.{
  new_from_entries, Change, updated, removed, run_changes, update_upstream, entries_by_upstream,
}
use go_auto_mcp.Refresh.{RefreshConfig, Refresher, Tick, fetched, failed}
use go_auto_mcp.Manager.Update.Synced.{InStep, run_changes-InStep}
use go_auto_mcp.Manager.Update.Frozen.{failed_update_freezes, count_in}
use go_auto_mcp.Manager.Update.Contents.{
  state_of, update_upstream_outcome, update_upstream_accepts_iff,
}
use go_auto_mcp.Manager.Tables.{Tools, drop_names, ops}

abbrev entry : String → String → Entry
entry up name = record {
  prefixed_name = name;
  upstream = some (record { name = up; tool_prefix = up });
  mcp_tool = record { name = name };
  auth_required = true;
  operation_node = none;
  rate_limit = "";
  ui_handler = none;
  cache_name = "";
}

abbrev no_filters : String → Option JsonPath
no_filters s = none

abbrev start : Manager Tools
start = record {
  servers = [];
  registry = none;
  groups =
      record { name = "all"; endpoint = "/mcp"; upstreams = "a" ∷ "b" ∷ "c" ∷ []; filter = "" }
      ∷ [];
  naming = some "__";
  upstream_by_name = ("b", state_of (entry "b" "x" ∷ []) none) ∷ [];
  search_tools = [];
}

abbrev fine : Change
fine = updated "a" (entry "a" "y" ∷ []) none

abbrev clash : Change
clash = updated "a" (entry "a" "x" ∷ []) none

abbrev elsewhere : Change
elsewhere = updated "c" (entry "c" "z" ∷ []) none

abbrev after : List Change → Manager Tools
after cs = run_changes ops no_filters cs start

accepted : (update_upstream ops no_filters "a" (entry "a" "y" ∷ []) none start).1 ≡ true
unfolding update_upstream new_from_entries insert lookup contains drop_names
accepted = refl

refused : (update_upstream ops no_filters "a" (entry "a" "x" ∷ []) none start).1 ≡ false
unfolding update_upstream new_from_entries insert lookup contains drop_names
refused = refl

served_after :
    lookup "/mcp" (after (fine ∷ [])).servers
    ≡ some (("x", call_tool "x" "all" "") ∷ ("y", call_tool "y" "all" "") ∷ [])
unfolding run_changes new_from_entries insert lookup contains drop_names tools_for_group
    ui_handler_for_tool rate_limit_name
served_after = refl

run_changes-InStep_example : InStep ops no_filters "y" (after (fine ∷ clash ∷ removed "b" ∷ []))
unfolding contains lookup
run_changes-InStep_example =
    run_changes-InStep ops no_filters "y" (fine ∷ clash ∷ removed "b" ∷ []) start refl (refl, tt)
      (refl, tt)

failed_update_freezes_example :
    ((after (clash ∷ elsewhere ∷ [])).registry ≡ none)
    × ((after (clash ∷ elsewhere ∷ [])).servers ≡ [])
unfolding lookup
failed_update_freezes_example =
    failed_update_freezes ops no_filters "a" "b" "x" "__" start (entry "a" "x" ∷ []) none
      (state_of (entry "b" "x" ∷ []) none) (elsewhere ∷ []) refl refl refl (omega arith)
      (omega arith) ((refl, refl), tt)

update_upstream_accepts_iff_example :
    ((update_upstream ops no_filters "a" (entry "a" "y" ∷ []) none start).1 ≡ true) ↔ (
      (n : String)
      → count_in n (insert "a" (state_of (entry "a" "y" ∷ []) none) start.upstream_by_name) ≤ 1)
unfolding compile_filters
update_upstream_accepts_iff_example =
    update_upstream_accepts_iff ops no_filters "__" "a" (entry "a" "y" ∷ []) none start [] refl refl

update_upstream_outcome_example :
    (((update_upstream ops no_filters "a" (entry "a" "y" ∷ []) none start).1 ≡ true)
      × ((r : Registry) × ((update_upstream ops no_filters "a"
              (entry "a" "y" ∷ [])
              none
              start).0.registry
            ≡ some r)
          × Holds
              (entries_in (
                entries_by_upstream
                  (insert "a" (state_of (entry "a" "y" ∷ []) none) start.upstream_by_name)))
              r))
    ⊎ (((update_upstream ops no_filters "a" (entry "a" "y" ∷ []) none start).1 ≡ false)
        × ((update_upstream ops no_filters "a" (entry "a" "y" ∷ []) none start).0.registry ≡ none)
        × ((update_upstream ops no_filters "a" (entry "a" "y" ∷ []) none start).0.servers ≡ []))
update_upstream_outcome_example =
    update_upstream_outcome ops no_filters "__" "a" (entry "a" "y" ∷ []) none start refl

abbrev merge : String → String → Option String
merge spec overlay = none

abbrev one_tool : String → Option (List Entry × Option ℕ)
one_tool bytes = some (entry "a" "y" ∷ [], none)

abbrev polled : RefreshConfig
polled = record { name = "a"; max_refresh_failures = pos 1; overlay = none }

abbrev polling : Refresher
polling = record {
  current = record {
    compiled_tools = [];
    spec_yaml_root = none;
    spec_etag = "";
    overlay_etag = "";
    cached_spec_bytes = "";
    cached_overlay_bytes = none;
  };
  failures = 0;
  degraded = false;
  last_overlay_fetch = none;
}

abbrev ticks : List Tick
ticks =
    record { now = 1; asked_again = 1; ended = 1; spec = fetched "{}" "v1"; overlay = failed }
    ∷ record { now = 2; asked_again = 2; ended = 2; spec = failed; overlay = failed }
    ∷ []

-- ===== src/Manager/Rebuild/Tests.antt =====
-- One upstream with one tool, under a limit that is configured, and under one that is not.
use go_auto_mcp.Prelude.{
  ℕ, String, ◌≡◌, refl, Bool, true, false, Option, none, some, List, [], ◌∷◌, string_eq, Dict,
  lookup, insert, contains, Result, ok, err,
}
use go_auto_mcp.Upstreams.Registry.{Entry, Tool, Group, Registry, ValidatedUpstream, JsonPath, new}
use go_auto_mcp.Manager.Rebuild.{
  UpstreamConfig, ProxyConfig, RebuildError, unknown_tool_limit, Runtime, rebuild_all,
}
use go_auto_mcp.Manager.Rebuild.Known.{AllKnown, rebuild_all-AllKnown}
use go_auto_mcp.Manager.Tables.{Tools, ops, drop_names}

abbrev up : UpstreamConfig
up = record { name = "a"; enabled = true; tool_prefix = "a"; rate_limit = ""; circuit_breaker = "" }

abbrev entry : String → Entry
entry limit = record {
  prefixed_name = "a_x";
  upstream = some (record { name = "a"; tool_prefix = "a" });
  mcp_tool = record { name = "a_x" };
  auth_required = true;
  operation_node = none;
  rate_limit = limit;
  ui_handler = none;
  cache_name = "";
}

abbrev build : String → UpstreamConfig → Option ValidatedUpstream
build limit config =
    some (record { name = "a"; tool_prefix = "a"; entries = entry limit ∷ []; spec_root = none })

abbrev cfg : ProxyConfig
cfg = record {
  upstreams = up ∷ [];
  rate_limits = ("slow", "user") ∷ [];
  circuit_breakers = [];
  caches = [];
  groups = [];
  separator = "_";
}

abbrev no_filters : String → Option JsonPath
no_filters s = none

abbrev enforce : ProxyConfig → Option Bool
enforce c = some true

abbrev no_store : ProxyConfig → Option ℕ
no_store c = none

abbrev no_search : Registry → List Group → Dict String Tool
no_search r groups = []

abbrev start : Runtime Tools ℕ
start = record {
  manager = record {
    servers = [];
    registry = none;
    groups = [];
    naming = none;
    upstream_by_name = [];
    search_tools = [];
  };
  limits = record { enforcer = false; sources = [] };
  breakers = [];
  store = none;
  cache_configs = [];
}

rebuilt : String → Result RebuildError (Runtime Tools ℕ)
unfolding rebuild_all new lookup insert contains drop_names
rebuilt limit = rebuild_all ops no_filters (build limit) enforce no_store no_search cfg start

abbrev or_start : Result RebuildError (Runtime Tools ℕ) → Runtime Tools ℕ
or_start (ok rt) = rt
or_start (err e) = start

rejected : rebuilt "quick" ≡ err (unknown_tool_limit "a_x" "quick")
unfolding rebuilt
rejected = refl

rebuild_all-AllKnown_example :
    AllKnown ops no_filters (build "slow") enforce no_store no_search (or_start (rebuilt "slow"))
unfolding rebuilt
rebuild_all-AllKnown_example =
    rebuild_all-AllKnown ops no_filters (build "slow") enforce no_store no_search cfg start
      (or_start (rebuilt "slow")) refl

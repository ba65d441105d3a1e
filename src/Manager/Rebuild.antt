-- ===== src/Manager/Rebuild.antt =====
-- pkg/mcp/manager.go, Rebuild and validateUpstreamPrefixes: a whole configuration at once.
-- Building an upstream, the rate limit enforcer, the cache store and the search indexes are
-- parameters; the search tools are those of the indexes, none at all if building them failed.
pub mod Known
mod Tests
use go_auto_mcp.Prelude.{
  ℕ, String, Bool, true, false, Option, none, some, List, [], ◌∷◌, map, string_eq, ◌==◌, Dict,
  lookup, insert, Result, ok, err, ◌>>=◌, if◌then◌else◌,
}
use go_auto_mcp.Upstreams.Registry.{
  Entry, Tool, Group, Registry, RegistryError, ValidatedUpstream, JsonPath, new,
}
use go_auto_mcp.Upstreams.Registry.Calls.{entries_for_upstream, spec_root_for_upstream}
use go_auto_mcp.Manager.{ServerOps, Manager, UpstreamState}
use go_auto_mcp.Manager.Apply.{apply_registry}
use go_auto_mcp.Manager.Calls.{CacheConfig}
use go_auto_mcp.Manager.Calls.Limits.{Limits}

-- config.UpstreamConfig, as far as Rebuild reads it
pub record UpstreamConfig : Type 0 where
  pub name : String
  pub enabled : Bool
  pub tool_prefix : String
  pub rate_limit : String
  pub circuit_breaker : String

-- config.ProxyConfig; a rate limit is its source, and a circuit breaker a number
pub record ProxyConfig : Type 0 where
  pub upstreams : List UpstreamConfig
  pub rate_limits : Dict String String
  pub circuit_breakers : Dict String ℕ
  pub caches : Dict String CacheConfig
  pub groups : List Group
  pub separator : String

pub data RebuildError : Type 0 where
  same_prefix : String → String → String → RebuildError
  unknown_rate_limit unknown_breaker : String → String → RebuildError
  not_built : String → RebuildError
  no_registry : RegistryError → RebuildError
  unknown_tool_limit : String → String → RebuildError
  unknown_cache : String → String → String → RebuildError
  no_enforcer no_store : RebuildError

-- validateUpstreamPrefixes
pub validate_upstream_prefixes :
    Dict String String → List UpstreamConfig → Result RebuildError (Unit {0})
validate_upstream_prefixes seen [] = ok tt
validate_upstream_prefixes seen (up ∷ ups) = elim up.enabled [
  | false ↦ validate_upstream_prefixes seen ups
  | true ↦ elim (lookup up.tool_prefix seen) [
    | some prev ↦ err (same_prefix prev up.name up.tool_prefix)
    | none ↦ validate_upstream_prefixes (insert up.tool_prefix up.name seen) ups
  ]
]

-- `""`, or a key of the map
abbrev pub known {ℓ} : {V : Type ℓ} → String → Dict String V → Bool
known name m = if name == "" then true else elim (lookup name m) [ none ↦ false | some v ↦ true ]

-- the loops over the references of the enabled upstreams
pub check_rate_limits : Dict String String → List UpstreamConfig → Result RebuildError (Unit {0})
check_rate_limits limits [] = ok tt
check_rate_limits limits (up ∷ ups) =
    let rest = check_rate_limits limits ups in
    if up.enabled
    then (if known up.rate_limit limits
        then rest
        else err (unknown_rate_limit up.name up.rate_limit))
    else rest

pub check_breakers : Dict String ℕ → List UpstreamConfig → Result RebuildError (Unit {0})
check_breakers breakers [] = ok tt
check_breakers breakers (up ∷ ups) =
    let rest = check_breakers breakers ups in
    if up.enabled
    then (if known up.circuit_breaker breakers
        then rest
        else err (unknown_breaker up.name up.circuit_breaker))
    else rest

-- the loop of pkgupstream.Build
module _ (build : UpstreamConfig → Option ValidatedUpstream) where
  pub build_upstreams :
      List UpstreamConfig → Result RebuildError (List (UpstreamConfig × ValidatedUpstream))
  build_upstreams [] = ok []
  build_upstreams (up ∷ ups) = elim up.enabled [
    | false ↦ build_upstreams ups
    | true ↦ elim (build up) [
      | none ↦ err (not_built up.name)
      | some vu ↦ build_upstreams ups >>= λ rest. ok ((up, vu) ∷ rest)
    ]
  ]

abbrev pub validated : List (UpstreamConfig × ValidatedUpstream) → List ValidatedUpstream
validated = map (λ x. x.1)

-- the upstreams that get a circuit breaker
pub breaker_names : List (UpstreamConfig × ValidatedUpstream) → List String
breaker_names [] = []
breaker_names ((up, vu) ∷ built) =
    let rest = breaker_names built in if up.circuit_breaker == "" then rest else up.name ∷ rest

-- the configured groups, or the synthetic one
abbrev pub groups_or_default : List Group → List ValidatedUpstream → List Group
groups_or_default (g ∷ gs) vus = g ∷ gs
groups_or_default [] vus =
    record { name = "default"; endpoint = "/mcp"; upstreams = map (λ vu. vu.name) vus; filter = "" }
    ∷ []

abbrev pub registry_or_error : Result RegistryError Registry → Result RebuildError Registry
registry_or_error (ok r) = ok r
registry_or_error (err e) = err (no_registry e)

-- the loops over the entries of the built upstreams
pub check_entry_limits : Dict String String → List Entry → Result RebuildError (Unit {0})
check_entry_limits limits [] = ok tt
check_entry_limits limits (e ∷ es) =
    let rest = check_entry_limits limits es in
    if known e.rate_limit limits
    then rest
    else err (unknown_tool_limit e.prefixed_name e.rate_limit)

pub check_upstream_limits :
    Dict String String → List ValidatedUpstream → Result RebuildError (Unit {0})
unfolding check_entry_limits
check_upstream_limits limits [] = ok tt
check_upstream_limits limits (vu ∷ vus) =
    check_entry_limits limits vu.entries >>= λ u. check_upstream_limits limits vus

pub check_entry_caches :
    Dict String CacheConfig → String → List Entry → Result RebuildError (Unit {0})
check_entry_caches caches up_name [] = ok tt
check_entry_caches caches up_name (e ∷ es) =
    let rest = check_entry_caches caches up_name es in
    if known e.cache_name caches
    then rest
    else err (unknown_cache up_name e.prefixed_name e.cache_name)

pub check_upstream_caches :
    Dict String CacheConfig → List ValidatedUpstream → Result RebuildError (Unit {0})
unfolding check_entry_caches
check_upstream_caches caches [] = ok tt
check_upstream_caches caches (vu ∷ vus) =
    check_entry_caches caches vu.name vu.entries >>= λ u. check_upstream_caches caches vus

abbrev pub or_error : {A : Type 0} → RebuildError → Option A → Result RebuildError A
or_error e none = err e
or_error e (some a) = ok a

-- the new upstreamByName
pub states :
    Registry → Dict String UpstreamState → List ValidatedUpstream → Dict String UpstreamState
unfolding entries_for_upstream spec_root_for_upstream
states r m [] = m
states r m (vu ∷ vus) =
    states r
      (insert vu.name
        (record {
          entries = entries_for_upstream r vu.name;
          spec_yaml_root = spec_root_for_upstream r vu.name;
        })
        m)
      vus

-- The manager with the parts that only Rebuild writes.
pub record Runtime (S T : Type 0) : Type 0 where
  pub manager : Manager S
  pub limits : Limits
  pub breakers : List String
  pub store : Option T
  pub cache_configs : Dict String CacheConfig

-- The store is built only if there are caches.
abbrev pub store_for :
    {T : Type 0} → Option T → Dict String CacheConfig → Result RebuildError (Option T)
store_for new_store [] = ok none
store_for new_store (c ∷ cs) = or_error no_store new_store >>= λ t. ok (some t)

module _ {S T : Type 0} (ops : ServerOps S) (new_path : String → Option JsonPath)
    (build : UpstreamConfig → Option ValidatedUpstream) (new_enforcer : ProxyConfig → Option Bool)
    (new_store : ProxyConfig → Option T)
    (search_tools : Registry → List Group → Dict String Tool) where
  -- the part of Rebuild under the lock
  pub commit :
      ProxyConfig
      → List (UpstreamConfig × ValidatedUpstream)
      → List Group
      → Registry
      → Bool
      → Option T
      → Runtime S T
      → Runtime S T
  unfolding apply_registry states breaker_names
  commit cfg built groups r enforcer store rt =
      let tools = search_tools r groups in
      let applied = apply_registry ops r groups (some tools) rt.manager in
      record {
        manager = record applied {
          groups = groups;
          naming = some cfg.separator;
          upstream_by_name = states r [] (validated built);
          search_tools = tools;
        };
        limits = record { enforcer = enforcer; sources = cfg.rate_limits };
        breakers = breaker_names built;
        store = store;
        cache_configs = cfg.caches;
      }

  -- Rebuild; on an error the manager stays as it is
  pub rebuild_all : ProxyConfig → Runtime S T → Result RebuildError (Runtime S T)
  unfolding validate_upstream_prefixes check_rate_limits check_breakers build_upstreams
      check_upstream_limits check_upstream_caches commit
  rebuild_all cfg rt = do
    u ← validate_upstream_prefixes [] cfg.upstreams
    v ← check_rate_limits cfg.rate_limits cfg.upstreams
    w ← check_breakers cfg.circuit_breakers cfg.upstreams
    built ← build_upstreams build cfg.upstreams
    let groups = groups_or_default cfg.groups (validated built)
    r ← registry_or_error (new new_path (validated built) cfg.separator groups)
    x ← check_upstream_limits cfg.rate_limits (validated built)
    y ← check_upstream_caches cfg.caches (validated built)
    enforcer ← or_error no_enforcer (new_enforcer cfg)
    store ← store_for (new_store cfg) cfg.caches
    ok (commit cfg built groups r enforcer store rt)

-- ===== src/Manager/Rebuild/Known.antt =====
-- The rate limits and caches that the tools of a rebuilt registry name.
use mathlib.Core.Path.{subst}
use go_auto_mcp.Prelude.{
  String, ◌≡◌, sym, ap, ◌∙◌, Bool, true, Option, some, List, [], ◌∷◌, string_eq, ◌==◌, Dict, Result,
  ok, err, >>=-eq-ok, ok-injective, err-ne-ok, All, All-append, Bool-cases, inl, inr,
}
use go_auto_mcp.Upstreams.Registry.{Entry, Tool, Group, Registry, ValidatedUpstream, JsonPath, new}
use go_auto_mcp.Upstreams.Registry.Names.{find_entry, all_entries, Holds, new-Holds}
use go_auto_mcp.Upstreams.Registry.Calls.{entry_for_tool}
use go_auto_mcp.Manager.{ServerOps}
use go_auto_mcp.Manager.Apply.{apply_registry}
use go_auto_mcp.Manager.Calls.{CacheConfig}
use go_auto_mcp.Manager.Rebuild.{
  UpstreamConfig, ProxyConfig, Runtime, known, validate_upstream_prefixes, check_rate_limits,
  check_breakers, build_upstreams, validated, groups_or_default, registry_or_error,
  check_entry_limits, check_upstream_limits, check_entry_caches, check_upstream_caches, or_error,
  store_for, commit, rebuild_all,
}

registry-injective : {r s : Registry} → some r ≡ some s → r ≡ s
registry-injective h = cc

find-All :
    (P : Entry → Type 0) (name : String) (es : List Entry) (e : Entry)
    → All P es
    → find_entry name es ≡ some e
    → P e
find-All P name [] e h k = absurd cc
find-All P name (x ∷ es) e (h, hs) k = elim (Bool-cases (x.prefixed_name == name)) [
  | inl here ↦ let same : some x ≡ some e = rw here at k in subst P (some-injective same) h
  | inr off ↦ find-All P name es e hs (rw off at k)
]
  where
    some-injective : {a b : Entry} → some a ≡ some b → a ≡ b
    some-injective h = cc

check_entry_limits-All :
    (limits : Dict String String) (es : List Entry) (u : Unit {0})
    → check_entry_limits limits es ≡ ok u
    → All (λ e. known e.rate_limit limits ≡ true) es
unfolding check_entry_limits
check_entry_limits-All limits [] u h = tt
check_entry_limits-All limits (e ∷ es) u h = elim (Bool-cases (known e.rate_limit limits)) [
  | inl there ↦ (there, check_entry_limits-All limits es u (rw (there, check_entry_limits) at h))
  | inr missing ↦ absurd (err-ne-ok (rw (missing, check_entry_limits) at h))
]

check_upstream_limits-All :
    (limits : Dict String String) (vus : List ValidatedUpstream) (u : Unit {0})
    → check_upstream_limits limits vus ≡ ok u
    → All (λ e. known e.rate_limit limits ≡ true) (all_entries vus)
unfolding check_upstream_limits
check_upstream_limits-All limits [] u h = tt
check_upstream_limits-All limits (vu ∷ vus) u h =
    let (v, first, rest) = >>=-eq-ok (check_entry_limits limits vu.entries) _ h in
    All-append (λ (e : Entry). known e.rate_limit limits ≡ true) vu.entries (all_entries vus)
      (check_entry_limits-All limits vu.entries v first)
      (check_upstream_limits-All limits vus u rest)

check_entry_caches-All :
    (caches : Dict String CacheConfig) (up_name : String) (es : List Entry) (u : Unit {0})
    → check_entry_caches caches up_name es ≡ ok u
    → All (λ e. known e.cache_name caches ≡ true) es
unfolding check_entry_caches
check_entry_caches-All caches up_name [] u h = tt
check_entry_caches-All caches up_name (e ∷ es) u h = elim (Bool-cases (known e.cache_name caches)) [
  | inl there ↦
      (there, check_entry_caches-All caches up_name es u (rw (there, check_entry_caches) at h))
  | inr missing ↦ absurd (err-ne-ok (rw (missing, check_entry_caches) at h))
]

check_upstream_caches-All :
    (caches : Dict String CacheConfig) (vus : List ValidatedUpstream) (u : Unit {0})
    → check_upstream_caches caches vus ≡ ok u
    → All (λ e. known e.cache_name caches ≡ true) (all_entries vus)
unfolding check_upstream_caches
check_upstream_caches-All caches [] u h = tt
check_upstream_caches-All caches (vu ∷ vus) u h =
    let (v, first, rest) = >>=-eq-ok (check_entry_caches caches vu.name vu.entries) _ h in
    All-append (λ (e : Entry). known e.cache_name caches ≡ true) vu.entries (all_entries vus)
      (check_entry_caches-All caches vu.name vu.entries v first)
      (check_upstream_caches-All caches vus u rest)

registry_or_error-eq-ok :
    (x : Result _ Registry) (r : Registry) → registry_or_error x ≡ ok r → x ≡ ok r
registry_or_error-eq-ok (ok a) r h =
    ap (λ k. let y : Result _ Registry = ok k in y) (ok-injective h)
registry_or_error-eq-ok (err e) r h = absurd (err-ne-ok h)

module _ {S T : Type 0} (ops : ServerOps S) (new_path : String → Option JsonPath)
    (build : UpstreamConfig → Option ValidatedUpstream) (new_enforcer : ProxyConfig → Option Bool)
    (new_store : ProxyConfig → Option T)
    (search_tools : Registry → List Group → Dict String Tool) where
  -- every tool of the registry names limits and caches that are there
  pub record AllKnown (rt : Runtime S T) : Type 0 where
    pub resolved :
        (r : Registry) (name : String) (e : Entry)
        → rt.manager.registry ≡ some r
        → entry_for_tool r name ≡ some e
        → (known e.rate_limit rt.limits.sources ≡ true)
          × (known e.cache_name rt.cache_configs ≡ true)

  commit-AllKnown :
      (cfg : ProxyConfig) (built : List (UpstreamConfig × ValidatedUpstream)) (groups : List Group)
      (r : Registry) (enforcer : Bool) (store : Option T) (rt : Runtime S T)
      → Holds (all_entries (validated built)) r
      → All (λ e. known e.rate_limit cfg.rate_limits ≡ true) (all_entries (validated built))
      → All (λ e. known e.cache_name cfg.caches ≡ true) (all_entries (validated built))
      → AllKnown (
          commit ops new_path build new_enforcer new_store search_tools cfg built groups r enforcer
            store rt)
  unfolding commit apply_registry
  commit-AllKnown cfg built groups r enforcer store rt holds limits caches =
      let es = all_entries (validated built) in
      record {
        resolved = λ r' name e k found.
            let there : find_entry name es ≡ some e =
              sym (holds.found name)
              ∙ ap (λ x. entry_for_tool x name) (registry-injective k)
              ∙ found in
            (
              find-All (λ x. known x.rate_limit cfg.rate_limits ≡ true) name es e limits there,
              find-All (λ x. known x.cache_name cfg.caches ≡ true) name es e caches there,
            );
      }

  -- After a Rebuild that succeeds, each tool of the registry names no rate limit or a configured one,
  -- and no cache or a configured one.
  pub rebuild_all-AllKnown :
      (cfg : ProxyConfig) (rt rt' : Runtime S T)
      → rebuild_all ops new_path build new_enforcer new_store search_tools cfg rt ≡ ok rt'
      → AllKnown rt'
  unfolding rebuild_all
  rebuild_all-AllKnown cfg rt rt' h =
      let (u1, h1, k1) = >>=-eq-ok (validate_upstream_prefixes [] cfg.upstreams) _ h in
      let (u2, h2, k2) = >>=-eq-ok (check_rate_limits cfg.rate_limits cfg.upstreams) _ k1 in
      let (u3, h3, k3) = >>=-eq-ok (check_breakers cfg.circuit_breakers cfg.upstreams) _ k2 in
      let (built, h4, k4) = >>=-eq-ok (build_upstreams build cfg.upstreams) _ k3 in
      let vus = validated built in
      let groups = groups_or_default cfg.groups vus in
      let (r, h5, k5) =
        >>=-eq-ok (registry_or_error (new new_path vus cfg.separator groups)) _ k4 in
      let (u6, h6, k6) = >>=-eq-ok (check_upstream_limits cfg.rate_limits vus) _ k5 in
      let (u7, h7, k7) = >>=-eq-ok (check_upstream_caches cfg.caches vus) _ k6 in
      let (enforcer, h8, k8) = >>=-eq-ok (or_error _ (new_enforcer cfg)) _ k7 in
      let (store, h9, k9) = >>=-eq-ok (store_for (new_store cfg) cfg.caches) _ k8 in
      let holds = new-Holds new_path vus cfg.separator groups r (registry_or_error-eq-ok _ r h5) in
      subst AllKnown (ok-injective k9) (
        commit-AllKnown cfg built groups r enforcer store rt holds
          (check_upstream_limits-All cfg.rate_limits vus u6 h6)
          (check_upstream_caches-All cfg.caches vus u7 h7))

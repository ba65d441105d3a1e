-- ===== src/Operator/Tests.antt =====
-- A cluster with one annotated Service, one upstream and one proxy.
use mathlib.Core.List.{Memᴰ}
use mathlib.Core.List.Memᴰ
use mathlib.Core.Path.{subst}
use go_auto_mcp.Prelude.{
  map, keep, Bool, true, false, Option, none, some, List, [], ◌∷◌, ◌++◌, ◌≡◌, refl, sym, ◌∙◌, ap,
  ◌↔◌, Text, codes, text_eq, text_beq, text_beq_iff, ◌==◌, ◌&&◌, ◌||◌, Bool-cases, inl, inr,
  pair_eq, ℤ, pos, negsuc, ok, if◌then◌else◌, Dict, lookup, insert, lookup-insert, Distinct, arith,
}
use go_auto_mcp.Operator.{OpenApiSpec, Upstream, Service, Proxy}
use go_auto_mcp.Operator.Annotations.{
  described, tool_prefix_key, openapi_url_key, enabled_key, parse_int32, number, digits,
}
use go_auto_mcp.Operator.Generator.{
  GeneratedUpstream, http_entry, upstream_config, upstream_configs, http_config, base_url_of,
  openapi_of,
}
use go_auto_mcp.Operator.Discovered.{annotated_prefix, usable, upstream_configs-synthetic}
use go_auto_mcp.Operator.Discovery.{
  synthetic, InNamespace, visits_service, Client, annotated, triggers_service, discovery_namespaces,
  gather, service_matches,
}
use go_auto_mcp.Operator.Triggers.{triggers_service_iff}
use go_auto_mcp.Operator.Prefixes.{
  detect_prefix_conflicts, claimed_prefixes, tagged, detect_prefix_conflicts_iff,
}
use go_auto_mcp.Operator.ConfigMaps.{Data, Fetched, found, not_found, ConfigMapStore}

abbrev svc : Service
svc = record {
  namespace = codes "n";
  name = codes "s";
  annotations =
      (enabled_key, codes "true")
      ∷ (tool_prefix_key, codes "p")
      ∷ (openapi_url_key, codes "u")
      ∷ [];
  ports = pos 80 ∷ [];
}

abbrev decimal : ℤ → Text
decimal (pos n) = codes "80"
decimal (negsuc n) = codes "-1"

abbrev url_source : OpenApiSpec
url_source = record { config_map_ref = none; url = codes "u"; auto_discover = none }

-- the port annotation may be negative, and is checked against 32 bits
ports : (parse_int32 (codes "-5") ≡ some (negsuc 4)) × (parse_int32 (codes "4294967296") ≡ none)
unfolding parse_int32 number digits
ports = (refl, refl)

abbrev described_svc : Upstream
unfolding described
described_svc = described decimal svc (pos 80) url_source none

abbrev up : Upstream
up = record {
  namespace = codes "n";
  name = codes "u";
  labels = [];
  spec = record {
    kind = [];
    tool_prefix = codes "p";
    service_ref = none;
    base_url = codes "http://u";
    openapi = url_source;
    overlay = none;
    outbound_auth = none;
    transport = none;
    validation = none;
    commands = [];
    rate_limit = [];
  };
}

abbrev up_config : GeneratedUpstream
up_config = http_entry up (codes "http://u") (codes "u")

upstream_configs-synthetic_example :
    (ds : List GeneratedUpstream) × (upstream_configs decimal
        ((up ∷ []) ++ synthetic decimal (svc ∷ []))
      ≡ ok ((up_config ∷ []) ++ ds))
    × (map (λ d. d.tool_prefix) ds
        ≡ map (annotated_prefix decimal) (keep (usable decimal) (svc ∷ [])))
upstream_configs-synthetic_example =
    upstream_configs-synthetic decimal (up ∷ []) (up_config ∷ []) (svc ∷ [])
      (unfold upstream_configs upstream_config http_config base_url_of openapi_of text_beq in refl)

abbrev proxy : Proxy
proxy = record {
  namespace = codes "n";
  name = codes "p";
  upstream_selector = some (λ labels. true);
  match_names = [];
  service_discovery = some (record { enabled = true; namespace_selector = none });
}

listed_iff :
    {A : Type 0} (b : Bool) (x y : A) (l : List A)
    → (if b then some (y ∷ []) else some []) ≡ some l
    → Memᴰ x l ↔ ((x ≡ y) × (b ≡ true))
listed_iff true x y l h =
    let e : l ≡ y ∷ [] = cc in
    (
      λ m. (Memᴰ.eq_of_singleton (subst (λ k. Memᴰ x k) e m), refl),
      λ (same, t). subst (λ k. Memᴰ x k) (sym e) (Memᴰ.head same),
    )
listed_iff false x y l h =
    let e : l ≡ [] = cc in
    (λ m. absurd (Memᴰ.not-nil (subst (λ k. Memᴰ x k) e m)), λ (same, t). absurd cc)

-- the namespaces in which a List finds the objects of "n"
abbrev listed_in : Text → Bool
listed_in ns = ns == [] || codes "n" == ns

abbrev services : Text → Option (List Service)
services ns = if listed_in ns then some (svc ∷ []) else some []

abbrev upstreams : Text → (Dict Text Text → Bool) → Option (List Upstream)
upstreams ns selector = if listed_in ns && selector up.labels then some (up ∷ []) else some []

listed_in_iff : (ns : Text) → (listed_in ns ≡ true) ↔ InNamespace ns (codes "n")
listed_in_iff ns =
    let all = text_beq_iff ns [] in
    let own = text_beq_iff (codes "n") ns in
    (
      λ h. elim (Bool-cases (ns == [])) [
        | inl e ↦ inl (all.0 e)
        | inr e ↦ inr (own.0 (sym (simp e) ∙ h))
      ],
      λ h. elim h [ inl e ↦ simp (all.1 e) | inr e ↦ ground (arith, own.1 e) ],
    )

services_law :
    (ns : Text) (l : List Service) (x : Service)
    → services ns ≡ some l
    → Memᴰ x l ↔ ((x ≡ svc) × InNamespace ns x.namespace)
services_law ns l x h =
    let listed = listed_iff (listed_in ns) x svc l h in
    let within = listed_in_iff ns in
    (
      λ m.
          let (e, here) = listed.0 m in
          (e, subst (λ s. InNamespace ns s.namespace) (sym e) (within.0 here)),
      λ (e, here). listed.1 (e, within.1 (subst (λ s. InNamespace ns s.namespace) e here)),
    )

both_iff : (a b : Bool) → ((a && b) ≡ true) ↔ ((a ≡ true) × (b ≡ true))
both_iff a b = ground arith

upstreams_law :
    (ns : Text) (selector : Dict Text Text → Bool) (l : List Upstream) (x : Upstream)
    → upstreams ns selector ≡ some l
    → Memᴰ x l ↔ ((x ≡ up) × InNamespace ns x.namespace × (selector x.labels ≡ true))
upstreams_law ns selector l x h =
    let listed = listed_iff (listed_in ns && selector up.labels) x up l h in
    let within = listed_in_iff ns in
    (
      λ m.
          let (e, both) = listed.0 m in
          let (here, fits) = (both_iff (listed_in ns) (selector up.labels)).0 both in
          (
            e,
            subst (λ u. InNamespace ns u.namespace) (sym e) (within.0 here),
            ap (λ u. selector u.labels) e ∙ fits,
          ),
      λ (e, here, fits). listed.1 (
        e,
        (both_iff (listed_in ns) (selector up.labels)).1 (
          within.1 (subst (λ u. InNamespace ns u.namespace) e here),
          sym (ap (λ u. selector u.labels) e) ∙ fits,
        ),
      ),
    )

abbrev client : Client
client = record {
  has_upstream = λ x. x ≡ up;
  has_service = λ x. x ≡ svc;
  upstreams = upstreams;
  services = services;
  namespaces = λ labels. none;
  proxies = some (proxy ∷ []);
  upstreams_iff = upstreams_law;
  services_iff = services_law;
}

one_namespace : (l : List Text) → some (codes "n" ∷ []) ≡ some l → ¬ Memᴰ [] l
one_namespace l e m =
    let one : l ≡ codes "n" ∷ [] = cc in
    let blank : [] ≡ codes "n" = Memᴰ.eq_of_singleton (subst (λ k. Memᴰ [] k) one m) in cc

-- a proxy that names the empty namespace lists the Service, and its changes do not enqueue it
abbrev proxy_of_all : Proxy
proxy_of_all = record proxy { namespace = codes "m"; match_names = [] ∷ [] }

lists_without_trigger :
    (annotated client proxy_of_all ≡ some (svc ∷ []))
    × (triggers_service client svc proxy_of_all ≡ false)
unfolding text_beq lookup
lists_without_trigger = (
  unfold annotated discovery_namespaces gather service_matches in refl,
  unfold triggers_service discovery_namespaces visits_service in refl,
)

triggers_service_iff_example : (triggers_service client svc proxy ≡ true) ↔ Memᴰ svc (svc ∷ [])
unfolding text_beq lookup
triggers_service_iff_example =
    triggers_service_iff client svc proxy (svc ∷ []) refl refl
      (λ l e. one_namespace l (unfold discovery_namespaces in e))
      (unfold annotated discovery_namespaces gather service_matches in refl)

detect_prefix_conflicts_iff_example :
    (detect_prefix_conflicts (up ∷ []) (described_svc ∷ []) ≡ [])
    ↔ Distinct (
        claimed_prefixes
          (tagged (codes "crd") (up ∷ []) ++ tagged (codes "service") (described_svc ∷ [])))
detect_prefix_conflicts_iff_example = detect_prefix_conflicts_iff (up ∷ []) (described_svc ∷ [])

abbrev Names : Type 0
Names = Dict (Text × Text) Data

abbrev fetched : Option Data → Fetched
fetched none = not_found
fetched (some d) = found d

fetched-if :
    (b : Bool) (d : Data) (o : Option Data)
    → fetched (if b then some d else o) ≡ (if b then found d else fetched o)
fetched-if true d o = refl
fetched-if false d o = refl

abbrev config_maps : ConfigMapStore Names
config_maps = record {
  get = λ name c. fetched (lookup name c);
  put = λ name d c. (insert name d c, true);
  can_own = λ name. true;
  get-put = λ key at d c done.
      ap fetched (lookup-insert key at d c) ∙ fetched-if (key == at) d (lookup at c);
}

abbrev specs : Text × Text
specs = (codes "n", codes "p-specs")

abbrev after : Names
after = (specs, some ((codes "k", codes "v") ∷ [])) ∷ []

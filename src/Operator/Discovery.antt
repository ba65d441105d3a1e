-- ===== src/Operator/Discovery.antt =====
-- pkg/operator/controller/mcpproxy_controller.go: which upstreams and annotated Services belong to a
-- proxy, and which proxies are enqueued when one of these changes. Reading the cluster is the
-- interface Client; an answer that is not there is an error.
use mathlib.Core.List.{Memᴰ}
use mathlib.Core.Option
use go_auto_mcp.Prelude.{
  Bool, true, false, Option, none, some, List, [], ◌∷◌, ◌++◌, ◌≡◌, ◌↔◌, ◌⊎◌, Text, codes, text_eq,
  ◌==◌, ◌&&◌, not, nat_eq, ℤ, Result, err, ok, if◌then◌else◌, Dict, lookup, contains, keep,
}
use go_auto_mcp.Operator.{Upstream, Service, Proxy, value_at, cut}
use go_auto_mcp.Operator.Annotations.{AnnotationError, service_to_upstream, enabled_key, proxy_key}

-- client.InNamespace: the empty namespace stands for all
abbrev pub InNamespace : Text → Text → Type 0
InNamespace listed own = (listed ≡ []) ⊎ (own ≡ listed)

-- client.Client over one state of the cluster: a List of a namespace has the objects that are stored
-- there and that the selector holds for.
pub record Client : Type 1 where
  pub has_upstream : Upstream → Type 0
  pub has_service : Service → Type 0
  pub upstreams : Text → (Dict Text Text → Bool) → Option (List Upstream)
  pub services : Text → Option (List Service)
  pub namespaces : Dict Text Text → Option (List Text)
  pub proxies : Option (List Proxy)
  pub upstreams_iff :
      (ns : Text) (selector : Dict Text Text → Bool) (found : List Upstream) (up : Upstream)
      → upstreams ns selector ≡ some found
      → Memᴰ up found
        ↔ (has_upstream up × InNamespace ns up.namespace × (selector up.labels ≡ true))
  pub services_iff :
      (ns : Text) (found : List Service) (svc : Service)
      → services ns ≡ some found
      → Memᴰ svc found ↔ (has_service svc × InNamespace ns svc.namespace)

abbrev pub both_lists {ℓ} : {A : Type ℓ} → Option (List A) → Option (List A) → Option (List A)
both_lists none l = none
both_lists (some k) none = none
both_lists (some k) (some l) = some (k ++ l)

-- the loop over namespaces of listUpstreams and listAnnotatedServices
unfoldable pub gather {ℓ} : {A : Type ℓ} → (Text → Option (List A)) → List Text → Option (List A)
gather list_in [] = some []
gather list_in (ns ∷ nss) = both_lists (list_in ns) (gather list_in nss)

-- the namespaces that are named, or the proxy's own
abbrev pub or_own : Proxy → List Text → List Text
or_own proxy [] = proxy.namespace ∷ []
or_own proxy (ns ∷ nss) = ns ∷ nss

-- serviceMatchesProxy
unfoldable pub service_matches : Service → Proxy → Bool
unfolding cut
service_matches svc proxy = elim (lookup proxy_key svc.annotations) [
  | none ↦ true
  | some annotation ↦ elim (cut 47 annotation) [
    | some (ns, name) ↦ ns == proxy.namespace && name == proxy.name
    | none ↦ svc.namespace == proxy.namespace && annotation == proxy.name
  ]
]

abbrev pub is_enabled : Service → Bool
is_enabled svc = value_at enabled_key svc.annotations == codes "true"

-- the closure `add` of serviceDiscoveryNamespaces, on the namespaces seen so far
unfoldable pub add_namespaces : List Text → List Text → List Text
add_namespaces seen [] = seen
add_namespaces seen (ns ∷ nss) =
    add_namespaces (if contains ns seen then seen else seen ++ (ns ∷ [])) nss

-- the request for a proxy: its namespace and name
abbrev pub request_for : Proxy → Text × Text
request_for proxy = (proxy.namespace, proxy.name)

-- one Service, skipped if its annotations cannot be used
abbrev pub cons_ok : Result AnnotationError Upstream → List Upstream → List Upstream
cons_ok (err e) ups = ups
cons_ok (ok up) ups = up ∷ ups

unfoldable pub synthetic : (ℤ → Text) → List Service → List Upstream
synthetic decimal [] = []
synthetic decimal (svc ∷ svcs) = cons_ok (service_to_upstream decimal svc) (synthetic decimal svcs)

-- the inner loop of proxiesForAnnotatedService, which ends at the Service's namespace
unfoldable pub visits_service : Service → Proxy → List Text → Bool
visits_service svc proxy [] = false
visits_service svc proxy (ns ∷ nss) =
    let rest = visits_service svc proxy nss in
    if not (ns == svc.namespace) then rest else service_matches svc proxy

abbrev pub visits_found : Service → Proxy → Option (List Text) → Bool
visits_found svc proxy none = false
visits_found svc proxy (some nss) = visits_service svc proxy nss

abbrev pub requests_of : (Proxy → Bool) → Option (List Proxy) → List (Text × Text)
requests_of triggers none = []
requests_of triggers (some proxies) = requests triggers proxies
  where
    requests : (Proxy → Bool) → List Proxy → List (Text × Text)
    requests t [] = []
    requests t (p ∷ ps) = let rest = requests t ps in if t p then request_for p ∷ rest else rest

-- the inner loop of proxiesForUpstream
unfoldable pub visits_upstream : Upstream → (Dict Text Text → Bool) → List Text → Bool
visits_upstream up selector [] = false
visits_upstream up selector (ns ∷ nss) =
    let rest = visits_upstream up selector nss in
    if not (ns == up.namespace) then rest else if selector up.labels then true else rest

module _ (client : Client) where
  abbrev pub labelled : List Text → Dict Text Text → Option (List Text)
  labelled names [] = some names
  labelled names (l ∷ ls) = Option.map (add_namespaces names) (client.namespaces (l ∷ ls))

  abbrev pub selected_namespaces : Proxy → Option (List Text × Dict Text Text) → Option (List Text)
  selected_namespaces proxy none = some (or_own proxy proxy.match_names)
  selected_namespaces proxy (some (names, selected)) =
      Option.map (or_own proxy) (labelled (add_namespaces [] names) selected)

  -- serviceDiscoveryNamespaces
  unfoldable pub discovery_namespaces : Proxy → Option (List Text)
  unfolding add_namespaces
  discovery_namespaces proxy = elim proxy.service_discovery [
    | none ↦ some (or_own proxy proxy.match_names)
    | some discovery ↦ selected_namespaces proxy discovery.namespace_selector
  ]

  -- the Services of a namespace that are annotated for the proxy
  abbrev pub annotated_in : Proxy → Text → Option (List Service)
  annotated_in proxy ns =
      Option.map (keep (λ svc. is_enabled svc && service_matches svc proxy)) (client.services ns)

  abbrev pub annotated_for : Proxy → Option (List Text) → Option (List Service)
  annotated_for proxy none = none
  annotated_for proxy (some nss) = gather (annotated_in proxy) nss

  -- the annotated Services of a proxy whose discovery is enabled
  unfoldable pub annotated : Proxy → Option (List Service)
  unfolding discovery_namespaces gather service_matches
  annotated proxy = elim proxy.service_discovery [
    | none ↦ some []
    | some discovery ↦
        if discovery.enabled then annotated_for proxy (discovery_namespaces proxy) else some []
  ]

  -- listAnnotatedServices
  unfoldable pub list_annotated_services : (ℤ → Text) → Proxy → Option (List Upstream)
  unfolding annotated synthetic
  list_annotated_services decimal proxy = Option.map (synthetic decimal) (annotated proxy)

  -- listUpstreams
  unfoldable pub list_upstreams : Proxy → Option (List Upstream)
  unfolding gather
  list_upstreams proxy = elim proxy.upstream_selector [
    | none ↦ none
    | some selector ↦ gather (λ ns. client.upstreams ns selector) (or_own proxy proxy.match_names)
  ]

  -- whether a change of the Service enqueues the proxy
  unfoldable pub triggers_service : Service → Proxy → Bool
  unfolding discovery_namespaces visits_service
  triggers_service svc proxy = elim proxy.service_discovery [
    | none ↦ false
    | some discovery ↦ discovery.enabled && visits_found svc proxy (discovery_namespaces proxy)
  ]

  -- proxiesForAnnotatedService
  unfoldable pub proxies_for_service : Service → List (Text × Text)
  unfolding triggers_service
  proxies_for_service svc = requests_of (triggers_service svc) client.proxies

  -- mapServiceToProxy
  unfoldable pub map_service_to_proxy : Service → List (Text × Text)
  unfolding proxies_for_service
  map_service_to_proxy svc = if is_enabled svc then proxies_for_service svc else []

  -- whether a change of the upstream enqueues the proxy
  unfoldable pub triggers_upstream : Upstream → Proxy → Bool
  unfolding visits_upstream
  triggers_upstream up proxy = elim proxy.upstream_selector [
    | none ↦ false
    | some selector ↦ visits_upstream up selector (or_own proxy proxy.match_names)
  ]

  -- proxiesForUpstream
  unfoldable pub proxies_for_upstream : Upstream → List (Text × Text)
  unfolding triggers_upstream
  proxies_for_upstream up = requests_of (triggers_upstream up) client.proxies

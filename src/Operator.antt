-- ===== src/Operator.antt =====
-- pkg/operator with pkg/crd/v1alpha1: the operator that finds the upstreams of a proxy in a Kubernetes
-- cluster, and keeps the proxy's objects there. The records hold what the operator reads.
pub mod Annotations
pub mod Discovery
pub mod Triggers
pub mod Prefixes
pub mod Generator
pub mod Discovered
pub mod ConfigMaps
pub mod Upserted
mod Tests
use go_auto_mcp.Prelude.{
  nat_eq, ℕ, Bool, Option, List, [], ◌∷◌, ◌++◌, Text, codes, text_eq, nat_eq, ◌==◌, contains, Dict,
  ℤ, if◌then◌else◌, lookup, none, some,
}

-- ConfigMapKeyRef
pub record KeyRef : Type 0 where
  pub name : Text
  pub key : Text

-- MCPUpstreamOpenAPISpec; auto_discover is its path
pub record OpenApiSpec : Type 0 where
  pub config_map_ref : Option KeyRef
  pub url : Text
  pub auto_discover : Option Text

-- OAuth2Spec
pub record Oauth2Spec : Type 0 where
  pub token_url : Text
  pub secret_ref : Option Text

-- MCPUpstreamOutboundAuthSpec; bearer is the secret that BearerSpec refers to
pub record AuthSpec : Type 0 where
  pub strategy : Text
  pub bearer : Option Text
  pub oauth2 : Option Oauth2Spec

-- MCPUpstreamTransportSpec; tls is the name of its secret
pub record TransportSpec : Type 0 where
  pub max_idle_conns : ℤ
  pub max_idle_conns_per_host : ℤ
  pub tls : Option Text

-- MCPUpstreamValidationSpec
pub record ValidationSpec : Type 0 where
  pub validate_request : Bool
  pub validate_response : Bool

-- MCPUpstreamCommandSpec, with the types of its input schema's properties
pub record Command : Type 0 where
  pub tool_name : Text
  pub description : Text
  pub command : Text
  pub shell : Bool
  pub working_dir : Text
  pub timeout : Text
  pub max_output : ℤ
  pub env : Dict Text Text
  pub schema_type : Text
  pub schema_properties : Dict Text (Text × Text)
  pub schema_required : List Text

-- MCPUpstreamSpec; service_ref is a name and a port, and an overlay may lack its reference
pub record UpstreamSpec : Type 0 where
  pub kind : Text
  pub tool_prefix : Text
  pub service_ref : Option (Text × ℤ)
  pub base_url : Text
  pub openapi : OpenApiSpec
  pub overlay : Option (Option KeyRef)
  pub outbound_auth : Option AuthSpec
  pub transport : Option TransportSpec
  pub validation : Option ValidationSpec
  pub commands : List Command
  pub rate_limit : Text

-- MCPUpstream
pub record Upstream : Type 0 where
  pub namespace : Text
  pub name : Text
  pub labels : Dict Text Text
  pub spec : UpstreamSpec

-- corev1.Service
pub record Service : Type 0 where
  pub namespace : Text
  pub name : Text
  pub annotations : Dict Text Text
  pub ports : List ℤ

-- ServiceDiscoverySpec; the selector has names and labels
pub record ServiceDiscovery : Type 0 where
  pub enabled : Bool
  pub namespace_selector : Option (List Text × Dict Text Text)

-- MCPProxy, as far as discovery reads it; a label selector is what LabelSelectorAsSelector made of
-- it, a test on labels, if it could be parsed
pub record Proxy : Type 0 where
  pub namespace : Text
  pub name : Text
  pub upstream_selector : Option (Dict Text Text → Bool)
  pub match_names : List Text
  pub service_discovery : Option ServiceDiscovery

abbrev pub or_empty : Option Text → Text
or_empty none = []
or_empty (some text) = text

-- a map's value, empty for a key that is not there
abbrev pub value_at : Text → Dict Text Text → Text
value_at k m = or_empty (lookup k m)

-- strings.Cut: the text before the first separator, and behind it
unfoldable pub cut : ℕ → Text → Option (Text × Text)
cut separator [] = none
cut separator (c ∷ s) =
    let rest = cut separator s in
    if c == separator
    then some ([], s)
    else elim rest [ none ↦ none | some (before, after) ↦ some (c ∷ before, after) ]

-- ===== src/Operator/Generator.antt =====
-- pkg/operator/configgen/generator.go: the upstreams of the configuration that the operator writes
-- for a proxy. What Sprintf's %d writes for a port is a parameter.
use go_auto_mcp.Prelude.{
  Bool, true, Option, none, some, List, [], ◌∷◌, ◌++◌, Text, codes, text_eq, ◌==◌, not, nat_eq, ℤ,
  Result, err, ok, ◌>>=◌, if◌then◌else◌, Dict,
}
use go_auto_mcp.Operator.{
  KeyRef, OpenApiSpec, Oauth2Spec, AuthSpec, TransportSpec, ValidationSpec, Command, Upstream,
}
use mathlib.Core.Option
use go_auto_mcp.Operator.Annotations.{cluster_url}

-- generatedOAuth2CCConfig
pub record GeneratedOauth2 : Type 0 where
  pub token_url : Text
  pub client_id : Text
  pub client_secret : Text

-- generatedOutboundAuth
pub record GeneratedAuth : Type 0 where
  pub strategy : Text
  pub oauth2 : Option GeneratedOauth2

-- generatedTransportConfig; tls is the path of its root certificate
pub record GeneratedTransport : Type 0 where
  pub max_idle_conns : ℤ
  pub tls : Option Text

-- generatedCommandInputSchema
pub record GeneratedSchema : Type 0 where
  pub kind : Text
  pub properties : Dict Text (Text × Text)
  pub required : List Text

-- generatedCommandConfig
pub record GeneratedCommand : Type 0 where
  pub tool_name : Text
  pub description : Text
  pub command : Text
  pub shell : Bool
  pub working_dir : Text
  pub timeout : Text
  pub max_output : ℤ
  pub env : Dict Text Text
  pub input_schema : Option GeneratedSchema

-- generatedUpstreamConfig; openapi and overlay are their sources
pub record GeneratedUpstream : Type 0 where
  pub name : Text
  pub enabled : Bool
  pub tool_prefix : Text
  pub kind : Text
  pub base_url : Text
  pub openapi : Option Text
  pub overlay : Option Text
  pub outbound_auth : Option GeneratedAuth
  pub transport : Option GeneratedTransport
  pub validation : Option ValidationSpec
  pub commands : List GeneratedCommand
  pub rate_limit : Text

pub data GenerateError : Type 0 where
  no_commands no_base_url no_openapi : GenerateError

-- "namespace/name" with another separator, as in the keys of spec files
unfoldable pub file_name : Upstream → Text
file_name up = up.namespace ++ (codes "_" ++ (up.name ++ codes ".yaml"))

-- the entry's beginning, common to all kinds
unfoldable pub base_config : Upstream → GeneratedUpstream
base_config up = record {
  name = up.namespace ++ (codes "-" ++ up.name);
  enabled = true;
  tool_prefix = up.spec.tool_prefix;
  kind = [];
  base_url = [];
  openapi = none;
  overlay = none;
  outbound_auth = none;
  transport = none;
  validation = none;
  commands = [];
  rate_limit = [];
}

-- the schema of a command, if it has any part; buildGeneratedInputSchema
unfoldable pub generated_schema : Command → Option GeneratedSchema
generated_schema c =
    let schema : GeneratedSchema = record {
      kind = c.schema_type;
      properties = c.schema_properties;
      required = c.schema_required;
    } in
    elim c.schema_properties [
      | p ∷ ps ↦ some schema
      | [] ↦ elim c.schema_required [
        | r ∷ rs ↦ some schema
        | [] ↦ if c.schema_type == [] then none else some schema
      ]
    ]

unfoldable pub generated_command : Command → GeneratedCommand
unfolding generated_schema
generated_command c = record {
  tool_name = c.tool_name;
  description = c.description;
  command = c.command;
  shell = c.shell;
  working_dir = c.working_dir;
  timeout = c.timeout;
  max_output = c.max_output;
  env = c.env;
  input_schema = generated_schema c;
}

abbrev pub generated_commands : List Command → List GeneratedCommand
generated_commands [] = []
generated_commands (c ∷ cs) = generated_command c ∷ generated_commands cs

-- buildCommandUpstreamConfig
unfoldable pub command_config : Upstream → Result GenerateError GeneratedUpstream
unfolding base_config
command_config up = elim up.spec.commands [
  | [] ↦ err no_commands
  | c ∷ cs ↦
      ok
        (record (base_config up) { kind = codes "command"; commands = generated_commands (c ∷ cs) })
]

-- the source of the OpenAPI document, for the base URL that was found
unfoldable pub openapi_of : Upstream → Text → OpenApiSpec → Result GenerateError Text
unfolding file_name
openapi_of up base openapi = elim openapi.config_map_ref [
  | some ref ↦ ok (codes "/etc/mcp-auto/specs/" ++ file_name up)
  | none ↦ if not (openapi.url == []) then ok openapi.url else elim openapi.auto_discover [
    | none ↦ err no_openapi
    | some path ↦ ok (base ++ (if path == [] then codes "/openapi.json" else path))
  ]
]

abbrev pub overlay_of : Upstream → Option (Option KeyRef) → Option Text
overlay_of up (some (some ref)) = some (codes "/etc/mcp-auto/overlays/" ++ file_name up)
overlay_of up (some none) = none
overlay_of up none = none

abbrev pub env_name : Upstream → Text → Text
env_name up suffix = codes "${UPSTREAM_" ++ (up.namespace ++ (codes "_" ++ (up.name ++ suffix)))

abbrev pub oauth2_of : Upstream → Oauth2Spec → GeneratedOauth2
oauth2_of up o = elim o.secret_ref [
  | none ↦ record { token_url = o.token_url; client_id = []; client_secret = [] }
  | some secret ↦ record {
    token_url = o.token_url;
    client_id = env_name up (codes "_OAUTH2_CLIENT_ID}");
    client_secret = env_name up (codes "_OAUTH2_CLIENT_SECRET}");
  }
]

abbrev pub auth_of : Upstream → AuthSpec → GeneratedAuth
auth_of up a = elim a.oauth2 [
  | none ↦ record { strategy = a.strategy; oauth2 = none }
  | some o ↦ record { strategy = a.strategy; oauth2 = some (oauth2_of up o) }
]

abbrev pub transport_of : Upstream → TransportSpec → GeneratedTransport
transport_of up t = elim t.tls [
  | none ↦ record { max_idle_conns = t.max_idle_conns; tls = none }
  | some secret ↦ record {
    max_idle_conns = t.max_idle_conns;
    tls = some (
        codes "/etc/mcp-auto/tls/"
        ++ (up.namespace ++ (codes "-" ++ (up.name ++ codes "/ca.crt"))));
  }
]

-- the entry of an HTTP upstream
unfoldable pub http_entry : Upstream → Text → Text → GeneratedUpstream
unfolding base_config
http_entry up base source = record (base_config up) {
  base_url = base;
  openapi = some source;
  overlay = overlay_of up up.spec.overlay;
  outbound_auth = Option.map (auth_of up) up.spec.outbound_auth;
  transport = Option.map (transport_of up) up.spec.transport;
  validation = up.spec.validation;
  rate_limit = up.spec.rate_limit;
}

module _ (decimal : ℤ → Text) where
  unfoldable pub base_url_of : Upstream → Result GenerateError Text
  unfolding cluster_url
  base_url_of up = elim up.spec.service_ref [
    | some (name, port) ↦ ok (cluster_url decimal name up.namespace port)
    | none ↦ if up.spec.base_url == [] then err no_base_url else ok up.spec.base_url
  ]

  -- buildHTTPUpstreamConfig
  unfoldable pub http_config : Upstream → Result GenerateError GeneratedUpstream
  unfolding base_url_of openapi_of http_entry
  http_config up = do
    base ← base_url_of up
    source ← openapi_of up base up.spec.openapi
    ok (http_entry up base source)

  -- buildUpstreamConfig
  unfoldable pub upstream_config : Upstream → Result GenerateError GeneratedUpstream
  unfolding command_config http_config
  upstream_config up = if up.spec.kind == codes "command" then command_config up else http_config up

  -- the loop of Generate
  unfoldable pub upstream_configs : List Upstream → Result GenerateError (List GeneratedUpstream)
  unfolding upstream_config
  upstream_configs [] = ok []
  upstream_configs (up ∷ ups) = do c ← upstream_config up; cs ← upstream_configs ups; ok (c ∷ cs)

-- ===== src/Operator/Annotations.antt =====
-- pkg/operator/controller/annotations.go: the upstream that an annotated Service stands for. What
-- Sprintf's %d writes for a port is a parameter.
use Prim.Native.Nat.{◌*◌}
use go_auto_mcp.Prelude.{
  or_fail, ℕ, suc, zero, ◌+◌, ◌-◌, Bool, true, false, Option, none, some, List, [], ◌∷◌, ◌++◌, Text,
  codes, text_eq, ◌==◌, ◌&&◌, ◌||◌, not, nat_eq, leb, ℤ, pos, negsuc, Result, err, ok, ◌>>=◌,
  if◌then◌else◌,
}
use go_auto_mcp.Operator.{KeyRef, OpenApiSpec, AuthSpec, Upstream, Service, value_at, cut}

-- the annotations' keys
abbrev pub enabled_key : Text
enabled_key = codes "mcp-auto.ai/enabled"

abbrev pub tool_prefix_key : Text
tool_prefix_key = codes "mcp-auto.ai/tool-prefix"

abbrev pub openapi_path_key : Text
openapi_path_key = codes "mcp-auto.ai/openapi-path"

abbrev pub openapi_url_key : Text
openapi_url_key = codes "mcp-auto.ai/openapi-url"

abbrev pub openapi_config_map_key : Text
openapi_config_map_key = codes "mcp-auto.ai/openapi-configmap"

abbrev pub overlay_config_map_key : Text
overlay_config_map_key = codes "mcp-auto.ai/overlay-configmap"

abbrev pub auth_strategy_key : Text
auth_strategy_key = codes "mcp-auto.ai/auth-strategy"

abbrev pub auth_secret_key : Text
auth_secret_key = codes "mcp-auto.ai/auth-secret"

abbrev pub proxy_key : Text
proxy_key = codes "mcp-auto.ai/proxy"

abbrev pub port_key : Text
port_key = codes "mcp-auto.ai/port"

abbrev pub base_path_key : Text
base_path_key = codes "mcp-auto.ai/base-path"

pub data AnnotationError : Type 0 where
  no_tool_prefix bad_port no_ports no_single_source bad_config_map_ref bad_overlay_ref :
      AnnotationError

-- the value of decimal digits behind those with value `acc`
unfoldable pub digits : ℕ → Text → Option ℕ
digits acc [] = some acc
digits acc (c ∷ s) =
    let rest = digits (10 * acc + (c - 48)) s in if leb 48 c && leb c 57 then rest else none

unfoldable pub number : Text → Option ℕ
unfolding digits
number [] = none
number (c ∷ s) = digits 0 (c ∷ s)

abbrev pub negated : ℕ → ℤ
negated zero = pos 0
negated (suc n) = negsuc n

abbrev pub up_to : ℕ → (ℕ → ℤ) → Option ℕ → Option ℤ
up_to bound sign none = none
up_to bound sign (some n) = if leb n bound then some (sign n) else none

-- strconv.ParseInt(s, 10, 32)
unfoldable pub parse_int32 : Text → Option ℤ
unfolding number
parse_int32 [] = none
parse_int32 (c ∷ s) =
    if c == 45
    then up_to 2147483648 negated (number s)
    else if c == 43
    then up_to 2147483647 pos (number s)
    else up_to 2147483647 pos (number (c ∷ s))

abbrev pub first_port : List ℤ → Result AnnotationError ℤ
first_port [] = err no_ports
first_port (p ∷ ports) = ok p

-- resolveServicePort
unfoldable pub resolve_service_port : Service → Result AnnotationError ℤ
unfolding parse_int32
resolve_service_port svc =
    let override = value_at port_key svc.annotations in
    if override == [] then first_port svc.ports else or_fail bad_port (parse_int32 override)

abbrev pub key_ref : Option (Text × Text) → Option KeyRef
key_ref none = none
key_ref (some (name, key)) =
    if name == [] || key == [] then none else some (record { name = name; key = key })

-- parseConfigMapRef
unfoldable pub parse_config_map_ref : Text → Option KeyRef
unfolding cut
parse_config_map_ref value = key_ref (cut 58 value)

abbrev pub count_if : Bool → ℕ
count_if true = 1
count_if false = 0

-- openAPISourceCount
unfoldable pub source_count : Text → Text → Text → ℕ
source_count url config_map path =
    count_if (not (url == [])) + count_if (not (config_map == [])) + count_if (not (path == []))

abbrev pub no_source : OpenApiSpec
no_source = record { config_map_ref = none; url = []; auto_discover = none }

unfoldable pub config_map_source : Text → Result AnnotationError OpenApiSpec
unfolding parse_config_map_ref
config_map_source config_map = do
  ref ← or_fail bad_config_map_ref (parse_config_map_ref config_map)
  ok (record no_source { config_map_ref = some ref })

-- the annotation that is there
unfoldable pub openapi_choice : Text → Text → Text → Result AnnotationError OpenApiSpec
unfolding config_map_source
openapi_choice url config_map path =
    if not (url == [])
    then ok (record no_source { url = url })
    else if not (config_map == [])
    then config_map_source config_map
    else ok (record no_source { auto_discover = some path })

-- what is read of the three annotations for the OpenAPI document
unfoldable pub openapi_source : Text → Text → Text → Result AnnotationError OpenApiSpec
unfolding openapi_choice source_count
openapi_source url config_map path =
    if not (source_count url config_map path == 1)
    then err no_single_source
    else openapi_choice url config_map path

abbrev pub overlay_source : Text → Result AnnotationError (Option (Option KeyRef))
overlay_source ref =
    if ref == []
    then ok none
    else (do found ← or_fail bad_overlay_ref (parse_config_map_ref ref); ok (some (some found)))

unfoldable pub auth_source : Text → Text → Option AuthSpec
auth_source strategy secret =
    if strategy == [] || strategy == codes "none"
    then none
    else some (record {
      strategy = strategy;
      bearer = if secret == [] then none else some secret;
      oauth2 = none;
    })

module _ (decimal : ℤ → Text) where
  unfoldable pub cluster_url : Text → Text → ℤ → Text
  cluster_url name namespace port =
      codes "http://"
      ++ (name ++ (codes "." ++ (namespace ++ (codes ".svc.cluster.local:" ++ decimal port))))

  -- the upstream of what was read
  unfoldable pub described : Service → ℤ → OpenApiSpec → Option (Option KeyRef) → Upstream
  unfolding auth_source cluster_url
  described svc port openapi overlay =
      let at : Text → Text = λ k. value_at k svc.annotations in
      record {
        namespace = svc.namespace;
        name = svc.name;
        labels = [];
        spec = record {
          kind = [];
          tool_prefix = at tool_prefix_key;
          service_ref = none;
          base_url = cluster_url svc.name svc.namespace port ++ at base_path_key;
          openapi = openapi;
          overlay = overlay;
          outbound_auth = auth_source (at auth_strategy_key) (at auth_secret_key);
          transport = none;
          validation = none;
          commands = [];
          rate_limit = [];
        };
      }

  -- the openapi annotations of a service
  abbrev pub openapi_of_service : Service → Result AnnotationError OpenApiSpec
  openapi_of_service svc =
      openapi_source (value_at openapi_url_key svc.annotations)
        (value_at openapi_config_map_key svc.annotations)
        (value_at openapi_path_key svc.annotations)

  unfoldable pub read_service : Service → Result AnnotationError Upstream
  unfolding resolve_service_port described openapi_source
  read_service svc = do
    port ← resolve_service_port svc
    openapi ← openapi_of_service svc
    overlay ← overlay_source (value_at overlay_config_map_key svc.annotations)
    ok (described svc port openapi overlay)

  -- serviceToMCPUpstream
  unfoldable pub service_to_upstream : Service → Result AnnotationError Upstream
  unfolding read_service
  service_to_upstream svc =
      if value_at tool_prefix_key svc.annotations == []
      then err no_tool_prefix
      else read_service svc

-- ===== src/Openapi/Generator.antt =====
-- pkg/openapi/generator.go: the tools of a document. The paths of a document and the operations of
-- a path are lists, in some order; the YAML node of an operation is left out, and so is the error
-- of DeriveInputSchema, which it never returns.
pub mod Merged
pub mod Offered
pub mod Unique
mod Tests
use go_auto_mcp.Prelude.{
  ℤ, Bool, true, false, not, ◌&&◌, ◌||◌, Option, none, some, List, [], ◌∷◌, ◌++◌, map, Text, codes,
  text_eq, pair_eq, nat_eq, ◌==◌, String, length, contains, if◌then◌else◌,
}
use go_auto_mcp.Naming.Slug
use go_auto_mcp.Naming.Slug.{SlugRules, tool_base_name}
use go_auto_mcp.Naming.Limit
use go_auto_mcp.Naming.Limit.{truncate_description}
use go_auto_mcp.Naming.Conflicts.{PrefixedTool, ConflictError, detect_conflicts}
use go_auto_mcp.Naming.Conflicts
use go_auto_mcp.Openapi.{Location, path, query, header, body, ApiSchema, Parameter, Operation}
use go_auto_mcp.Openapi.Arguments.{location_of}
use go_auto_mcp.Openapi.Schema.{InputSchema, derive_input_schema, first_kind}

abbrev pub same_parameter : Parameter → Parameter → Bool
same_parameter p q = p.name == q.name && p.place == q.place

-- the inner loop of mergeParams, and its append
unfoldable pub put_param : Parameter → List (Option Parameter) → List (Option Parameter)
put_param p [] = some p ∷ []
put_param p (none ∷ ps) = none ∷ put_param p ps
put_param p (some q ∷ ps) =
    let rest = put_param p ps in if same_parameter q p then some p ∷ ps else some q ∷ rest

unfoldable pub merge_params :
    List (Option Parameter) → List (Option Parameter) → List (Option Parameter)
unfolding put_param
merge_params merged [] = merged
merge_params merged (none ∷ ps) = merge_params merged ps
merge_params merged (some p ∷ ps) = merge_params (put_param p merged) ps

pub record ParamInfo : Type 0 where
  pub name : Text
  pub required : Bool
  pub place : Text
  pub schema_type : Text

abbrev schema_type_of : Option ApiSchema → Text
schema_type_of none = []
schema_type_of (some s) = first_kind s.kinds

abbrev param_info : Parameter → ParamInfo
param_info p = record {
  name = p.name;
  required = p.required;
  place = p.place;
  schema_type = schema_type_of p.schema;
}

pub record Classified : Type 0 where
  pub path_params : List Text
  pub query_params : List ParamInfo
  pub header_params : List ParamInfo

abbrev classify_as : Option Location → Parameter → Classified → Classified
classify_as none p c = c
classify_as (some path) p c = record c { path_params = p.name ∷ c.path_params }
classify_as (some query) p c = record c { query_params = param_info p ∷ c.query_params }
classify_as (some header) p c = record c { header_params = param_info p ∷ c.header_params }
classify_as (some body) p c = c

-- classifyParams
unfoldable pub classify_params : List (Option Parameter) → Classified
unfolding location_of
classify_params [] = record { path_params = []; query_params = []; header_params = [] }
classify_params (none ∷ ps) = classify_params ps
classify_params (some p ∷ ps) = classify_as (location_of p.place) p (classify_params ps)

-- ToolUIConfig, AppUIConfig: two sources of a tool's page
pub record UiConfig : Type 0 where
  pub script : Text
  pub static : Text

abbrev has_source : UiConfig → Bool
has_source c = not (c.script == []) || not (c.static == [])

abbrev configured : Option UiConfig → Option UiConfig
configured none = none
configured (some c) = if has_source c then some c else none

-- resolveToolUIConfig
unfoldable pub resolve_tool_ui_config : UiConfig → Option UiConfig → Option UiConfig
resolve_tool_ui_config op default_ui = if has_source op then some op else configured default_ui

-- an operation with the extensions that the generator reads; one without `x-mcp-enabled` is enabled
pub record ApiOperation : Type 0 where
  pub enabled : Bool
  pub named : Slug.Operation
  pub call : Operation
  pub summary : Text
  pub description : Text
  pub ui : UiConfig

pub record PathItem : Type 0 where
  pub path_text : Text
  pub parameters : List (Option Parameter)
  pub operations : List (Text × Option ApiOperation)

pub record NamingConfig : Type 0 where
  pub default_slug_rules : SlugRules
  pub separator : Text
  pub max_length : ℤ
  pub conflict_resolution : String
  pub description_max_length : ℤ
  pub description_truncation_suffix : Text

pub record UpstreamConfig : Type 0 where
  pub tool_prefix : Text
  pub app_ui : Option UiConfig

pub record GeneratedTool : Type 0 where
  pub prefixed_name : Text
  pub original_name : Text
  pub description : Text
  pub input_schema : InputSchema
  pub resource_uri : Option Text
  pub method : Text
  pub path_template : Text
  pub params : Classified
  pub operation : Operation
  pub ui_config : Option UiConfig

-- `mergedOp`
abbrev pub merged_operation : List (Option Parameter) → Operation → Operation
merged_operation item_params op = record op { parameters = merge_params item_params op.parameters }

abbrev resource_of : Text → Option UiConfig → Option Text
resource_of name none = none
resource_of name (some c) = some (codes "ui://" ++ (name ++ codes "/app"))

abbrev has_any : List Text → Bool
has_any [] = false
has_any (name ∷ names) = true

-- the body of the loops of GenerateTools
unfoldable pub tool_of :
    UpstreamConfig → NamingConfig → PathItem → Text → ApiOperation → GeneratedTool
unfolding merge_params classify_params derive_input_schema resolve_tool_ui_config
tool_of upstream naming item method op =
    let merged = merged_operation item.parameters op.call in
    let params = classify_params merged.parameters in
    let base_name =
      tool_base_name op.named method item.path_text (has_any params.path_params)
        naming.default_slug_rules in
    let name =
      Limit.prefixed_name base_name upstream.tool_prefix naming.separator naming.max_length in
    let ui = resolve_tool_ui_config op.ui upstream.app_ui in
    record {
      prefixed_name = name;
      original_name = base_name;
      description =
          truncate_description (if op.summary == [] then op.description else op.summary)
            naming.description_max_length naming.description_truncation_suffix;
      input_schema = derive_input_schema op.call;
      resource_uri = resource_of name ui;
      method = method;
      path_template = item.path_text;
      params = params;
      operation = merged;
      ui_config = ui;
    }

unfoldable pub tools_of_item :
    UpstreamConfig
    → NamingConfig
    → PathItem
    → List (Text × Option ApiOperation)
    → List GeneratedTool
unfolding tool_of
tools_of_item upstream naming item [] = []
tools_of_item upstream naming item ((method, none) ∷ ops) = tools_of_item upstream naming item ops
tools_of_item upstream naming item ((method, some op) ∷ ops) =
    let rest = tools_of_item upstream naming item ops in
    if op.enabled then tool_of upstream naming item method op ∷ rest else rest

unfoldable pub all_tools : UpstreamConfig → NamingConfig → List PathItem → List GeneratedTool
unfolding tools_of_item
all_tools upstream naming [] = []
all_tools upstream naming (item ∷ items) =
    tools_of_item upstream naming item item.operations ++ all_tools upstream naming items

abbrev pub prefixed_of : GeneratedTool → PrefixedTool
prefixed_of t = record {
  prefixed_name = t.prefixed_name;
  original_path = t.path_template;
  original_method = t.method;
}

-- toolKey
abbrev pub tool_key : PrefixedTool → Text × (Text × Text)
tool_key t = (t.prefixed_name, (t.original_path, t.original_method))

unfoldable pub surviving_only :
    List (Text × (Text × Text)) → List GeneratedTool → List GeneratedTool
surviving_only kept [] = []
surviving_only kept (t ∷ ts) =
    let rest = surviving_only kept ts in
    if contains (tool_key (prefixed_of t)) kept then t ∷ rest else rest

pub data Generated : Type 0 where
  generated : List GeneratedTool → Generated
  refused : ConflictError → Generated

abbrev pub filter_tools : List GeneratedTool → Conflicts.Result → Generated
filter_tools tools (Conflicts.Result.err e) = refused e
filter_tools tools (Conflicts.Result.ok surviving) =
    let kept = surviving_only (map tool_key surviving) tools in
    if length surviving == length tools then generated tools else generated kept

-- GenerateTools
unfoldable pub generate_tools : UpstreamConfig → NamingConfig → List PathItem → Generated
unfolding all_tools surviving_only
generate_tools upstream naming items =
    let tools = all_tools upstream naming items in
    filter_tools tools (detect_conflicts (map prefixed_of tools) naming.conflict_resolution)

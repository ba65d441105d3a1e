-- ===== src/Openapi/Generator/Tests.antt =====
-- A path with two operations that ask for the same name.
use go_auto_mcp.Prelude.{
  pos, true, false, none, some, List, [], ◌∷◌, ◌≡◌, refl, Text, codes, text_eq, text_beq, Distinct,
  contains, lookup, insert, keys,
}
use mathlib.Core.List.{Memᴰ}
use go_auto_mcp.Openapi.{Parameter, query}
use go_auto_mcp.Openapi.Arguments.{
  occurrences, parameter_occurrences, location_of, derive_arg_mapping, arg_name,
}
use go_auto_mcp.Naming.Slug.{tool_base_name}
use go_auto_mcp.Naming.Limit.{prefixed_name, cut_to}
use go_auto_mcp.Naming.Conflicts.{
  detect_conflicts, conflicts_of, count_names, conflicting, keep_first, resolve,
}
use go_auto_mcp.Openapi.Generator.{
  put_param, merge_params, ApiOperation, PathItem, NamingConfig, UpstreamConfig, GeneratedTool,
  generated, tool_of, tools_of_item, all_tools, generate_tools, surviving_only,
}
use go_auto_mcp.Openapi.Generator.Offered.{arg_name-tool_of}
use go_auto_mcp.Openapi.Generator.Unique.{tool_names, generate_tools-Distinct}

abbrev named : Text → ApiOperation
named name = record {
  enabled = true;
  named = record { tool_name = name; operation_id = [] };
  call = record { parameters = []; json_body = none };
  summary = codes "a summary";
  description = [];
  ui = record { script = []; static = [] };
}

abbrev pets : PathItem
pets = record {
  path_text = codes "/pets";
  parameters = [];
  operations =
      (codes "GET", some (named (codes "pets")))
      ∷ ((codes "POST", some (named (codes "pets"))) ∷ []);
}

abbrev naming : NamingConfig
naming = record {
  default_slug_rules = record {
    replace_slashes = true;
    replace_braces = true;
    expand_camel_case = true;
    lowercase = true;
    collapse_separators = true;
  };
  separator = codes "__";
  max_length = pos 0;
  conflict_resolution = "first_wins";
  description_max_length = pos 0;
  description_truncation_suffix = [];
}

abbrev upstream : UpstreamConfig
upstream = record { tool_prefix = codes "api"; app_ui = none }

abbrev kept_tools : List GeneratedTool
kept_tools = tool_of upstream naming pets (codes "GET") (named (codes "pets")) ∷ []

first_kept : generate_tools upstream naming (pets ∷ []) ≡ generated kept_tools
unfolding generate_tools all_tools tools_of_item tool_of surviving_only detect_conflicts
    conflicts_of count_names conflicting resolve keep_first tool_base_name prefixed_name cut_to
    lookup insert contains text_beq
first_kept = refl

generate_tools-Distinct_example : Distinct (tool_names kept_tools)
unfolding all_tools tools_of_item tool_of contains text_beq
generate_tools-Distinct_example =
    generate_tools-Distinct upstream naming (pets ∷ []) kept_tools (refl, (refl, tt)) first_kept

abbrev limit : Parameter
limit = record {
  name = codes "limit";
  place = codes "query";
  required = false;
  description = [];
  schema = none;
}

-- an operation with one parameter, of a path without any
abbrev limited : ApiOperation
limited = record (named (codes "pets")) {
  call = record { parameters = some limit ∷ []; json_body = none };
}

arg_name-tool_of_example :
    contains
      (arg_name
        (derive_arg_mapping (tool_of upstream naming pets (codes "GET") limited).operation)
        query
        (codes "limit"))
      (keys (tool_of upstream naming pets (codes "GET") limited).input_schema.properties)
    ≡ true
arg_name-tool_of_example =
    arg_name-tool_of upstream naming pets (codes "GET") limited query (codes "limit") refl
      (refl, tt) refl
      (unfold tool_of occurrences merge_params put_param parameter_occurrences location_of
          text_beq in
        Memᴰ.head refl)

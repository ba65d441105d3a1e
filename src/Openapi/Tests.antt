-- ===== src/Openapi/Tests.antt =====
-- Operations with `id` in the path, and the same name elsewhere.
use go_auto_mcp.Prelude.{
  false, none, some, [], ◌∷◌, ◌≡◌, refl, Text, codes, text_eq, text_beq, ◌==◌, nat_eq,
  if◌then◌else◌, lookup, insert, keys,
}
use mathlib.Core.List.{Memᴰ}
use go_auto_mcp.Openapi.{Option, List, path, body, ApiSchema, Parameter, Operation}
use go_auto_mcp.Openapi.Arguments.{
  occurrences, parameter_occurrences, location_of, collect, map_names, derive_arg_mapping, arg_name,
  renamed,
}
use go_auto_mcp.Openapi.Schema.{
  derive_input_schema, entries, parameter_entries, property_entries, add_names,
}
use go_auto_mcp.Openapi.Collected.{count_named}
use go_auto_mcp.Openapi.Named.{arg_name-derive_arg_mapping}
use go_auto_mcp.Openapi.Generator.{merged_operation, merge_params, put_param, classify_params}

abbrev plain : ApiSchema
plain = record {
  kinds = codes "integer" ∷ [];
  description = [];
  format = [];
  minimum = none;
  maximum = none;
  min_length = 0;
  max_length = none;
  pattern_text = [];
  enum = [];
}

abbrev parameter : Text → Text → Parameter
parameter name place = record {
  name = name;
  place = place;
  required = false;
  description = [];
  schema = some plain;
}

abbrev twice : Operation
twice = record {
  parameters = some (parameter (codes "id") (codes "path")) ∷ [];
  json_body = some (record { properties = (codes "id", some plain) ∷ []; required = [] });
}

arg_name-derive_arg_mapping_example : arg_name (derive_arg_mapping twice) body (codes "id") ≡ (
    if count_named (codes "id") (occurrences twice) == 1
    then codes "id"
    else renamed body (codes "id"))
unfolding occurrences parameter_occurrences location_of text_beq
arg_name-derive_arg_mapping_example =
    arg_name-derive_arg_mapping twice body (codes "id") (Memᴰ.tail (Memᴰ.head refl))

renamed_keys :
    keys (derive_input_schema twice).properties ≡ codes "id_path" ∷ (codes "id_body" ∷ [])
unfolding derive_input_schema entries parameter_entries property_entries location_of collect
    add_names insert lookup text_beq
renamed_keys = refl

-- a body property whose reference does not resolve
abbrev unresolved : Operation
unresolved = record {
  parameters = some (parameter (codes "id") (codes "path")) ∷ [];
  json_body = some (record { properties = (codes "id", none) ∷ []; required = [] });
}

read_as : arg_name (derive_arg_mapping unresolved) path (codes "id") ≡ codes "id_path"
unfolding arg_name derive_arg_mapping occurrences parameter_occurrences location_of collect
    map_names insert lookup text_beq
read_as = refl

offered_as : keys (derive_input_schema unresolved).properties ≡ codes "id" ∷ []
unfolding derive_input_schema entries parameter_entries property_entries location_of collect
    add_names insert lookup text_beq
offered_as = refl

-- `id` is renamed to a name that another parameter has
abbrev clash : Operation
clash = record {
  parameters =
      some (parameter (codes "id") (codes "path"))
      ∷ (some (parameter (codes "id") (codes "query"))
          ∷ (some (parameter (codes "id_path") (codes "header")) ∷ []));
  json_body = none;
}

clash-keys : keys (derive_input_schema clash).properties ≡ codes "id_path" ∷ (codes "id_query" ∷ [])
unfolding derive_input_schema entries parameter_entries property_entries location_of collect
    add_names insert lookup text_beq
clash-keys = refl

-- the path's own parameter: one place reads it, but the schema of the tool does not know it
abbrev item_params : List (Option Parameter)
item_params = some (parameter (codes "id") (codes "path")) ∷ []

abbrev with_body : Operation
with_body = record {
  parameters = [];
  json_body = some (record { properties = (codes "id", some plain) ∷ []; required = [] });
}

read_with_body :
    arg_name (derive_arg_mapping (merged_operation item_params with_body)) body (codes "id")
    ≡ codes "id_body"
unfolding arg_name derive_arg_mapping occurrences parameter_occurrences location_of collect
    map_names merge_params put_param insert lookup text_beq
read_with_body = refl

offered_with_body : keys (derive_input_schema with_body).properties ≡ codes "id" ∷ []
unfolding derive_input_schema entries parameter_entries property_entries location_of collect
    add_names insert lookup text_beq
offered_with_body = refl

split : (classify_params item_params).path_params ≡ codes "id" ∷ []
unfolding classify_params location_of text_beq
split = refl

-- ===== src/Openapi/Schema.antt =====
-- pkg/openapi/inputschema.go, DeriveInputSchema: the input schema of a tool.
use go_auto_mcp.Prelude.{
  ℕ, zero, suc, Bool, true, false, ◌||◌, Option, none, some, List, [], ◌∷◌, ◌++◌, Text, codes,
  text_eq, ◌==◌, nat_eq, if◌then◌else◌, Dict, insert, contains,
}
use go_auto_mcp.Openapi.{
  Location, path, query, header, body, ApiSchema, Parameter, BodySchema, Operation,
}
use go_auto_mcp.Openapi.Arguments.{location_of, renamed, collect}

-- jsonschema.Schema of a property
pub record PropertySchema : Type 0 where
  pub kind : Text
  pub description : Text
  pub format : Text
  pub minimum : Option Text
  pub maximum : Option Text
  pub min_length : Option ℕ
  pub max_length : Option ℕ
  pub pattern_text : Text
  pub enum : List Text

abbrev pub first_kind : List Text → Text
first_kind [] = []
first_kind (k ∷ ks) = k

abbrev pub positive_length : ℕ → Option ℕ
positive_length zero = none
positive_length (suc n) = some (suc n)

-- openAPISchemaToJSONSchema
unfoldable pub to_json_schema : ApiSchema → PropertySchema
to_json_schema v = record {
  kind = first_kind v.kinds;
  description = v.description;
  format = v.format;
  minimum = v.minimum;
  maximum = v.maximum;
  min_length = positive_length v.min_length;
  max_length = v.max_length;
  pattern_text = v.pattern_text;
  enum = v.enum;
}

abbrev pub empty_schema : PropertySchema
empty_schema = record {
  kind = [];
  description = [];
  format = [];
  minimum = none;
  maximum = none;
  min_length = none;
  max_length = none;
  pattern_text = [];
  enum = [];
}

abbrev pub schema_or_empty : Option ApiSchema → PropertySchema
schema_or_empty none = empty_schema
schema_or_empty (some v) = to_json_schema v

-- paramSchemaFull
unfoldable pub param_schema_full : Parameter → PropertySchema
unfolding to_json_schema
param_schema_full p =
    let s = schema_or_empty p.schema in
    record s {
      kind = if s.kind == [] then codes "string" else s.kind;
      description = if p.description == [] then s.description else p.description;
    }

-- entry
pub record Entry : Type 0 where
  pub source : Location
  pub prop_schema : PropertySchema
  pub required : Bool

abbrev pub is_path : Location → Bool
is_path path = true
is_path query = false
is_path header = false
is_path body = false

abbrev pub cons_entry : Option Location → Parameter → List (Entry × Text) → List (Entry × Text)
cons_entry none p es = es
cons_entry (some l) p es =
    (
      record { source = l; prop_schema = param_schema_full p; required = p.required || is_path l },
      p.name,
    )
    ∷ es

unfoldable pub parameter_entries : List (Option Parameter) → List (Entry × Text)
unfolding location_of param_schema_full
parameter_entries [] = []
parameter_entries (none ∷ ps) = parameter_entries ps
parameter_entries (some p ∷ ps) = cons_entry (location_of p.place) p (parameter_entries ps)

unfoldable pub property_entries : List Text → List (Text × Option ApiSchema) → List (Entry × Text)
unfolding to_json_schema
property_entries required [] = []
property_entries required ((name, none) ∷ ps) = property_entries required ps
property_entries required ((name, some v) ∷ ps) =
    (
      record { source = body; prop_schema = to_json_schema v; required = contains name required },
      name,
    )
    ∷ property_entries required ps

abbrev pub body_entries : Option BodySchema → List (Entry × Text)
body_entries none = []
body_entries (some b) = property_entries b.required b.properties

unfoldable pub entries : Operation → List (Entry × Text)
unfolding parameter_entries property_entries
entries op = parameter_entries op.parameters ++ body_entries op.json_body

-- the schema of an object
pub record InputSchema : Type 0 where
  pub properties : Dict Text PropertySchema
  pub required : List Text

abbrev pub add_property : Text → Entry → InputSchema → InputSchema
add_property key e s = record {
  properties = insert key e.prop_schema s.properties;
  required = if e.required then s.required ++ (key ∷ []) else s.required;
}

abbrev pub add_renamed : Text → List Entry → InputSchema → InputSchema
add_renamed name [] s = s
add_renamed name (e ∷ es) s = add_renamed name es (add_property (renamed e.source name) e s)

abbrev pub add_name : Text → List Entry → InputSchema → InputSchema
add_name name [] s = s
add_name name (e ∷ []) s = add_property name e s
add_name name (e ∷ (e' ∷ es)) s = add_renamed name (e ∷ (e' ∷ es)) s

unfoldable pub add_names : Dict Text (List Entry) → InputSchema → InputSchema
add_names [] s = s
add_names ((name, es) ∷ names) s = add_names names (add_name name es s)

-- DeriveInputSchema
unfoldable pub derive_input_schema : Operation → InputSchema
unfolding entries collect add_names
derive_input_schema op =
    add_names (collect (entries op) []) (record { properties = []; required = [] })

-- ===== src/Openapi/Jq.antt =====
-- pkg/openapi/request_jq.go: the jq expression that makes a request of a call's arguments.
pub mod Read
pub mod Names
pub mod Values
pub mod Members
pub mod Whole
mod Tests
use go_auto_mcp.Prelude.{
  ℕ, Bool, true, false, ◌&&◌, ◌||◌, Option, none, some, List, [], ◌∷◌, ◌++◌, map, Text, codes,
  text_eq, nat_eq, ◌==◌, if◌then◌else◌,
}
use go_auto_mcp.Naming.Slug.{is_upper, is_lower, is_digit}
use go_auto_mcp.Openapi.{path, query, header, body, ApiSchema, Parameter, BodySchema, Operation}
use go_auto_mcp.Openapi.Arguments.{ArgMapping, arg_name}

abbrev pub is_letter : ℕ → Bool
is_letter c = is_lower c || is_upper c || c == b'_'

abbrev pub in_identifier : ℕ → Bool
in_identifier c = is_letter c || is_digit c

unfoldable pub all_in_identifier : Text → Bool
all_in_identifier [] = true
all_in_identifier (c ∷ s) = in_identifier c && all_in_identifier s

-- isJqIdentifier
unfoldable pub is_jq_identifier : Text → Bool
unfolding all_in_identifier
is_jq_identifier [] = false
is_jq_identifier (c ∷ s) = is_letter c && all_in_identifier s

-- what %q writes between the quotes, for printable characters
unfoldable pub escape : Text → Text
escape [] = []
escape (c ∷ s) =
    let rest = escape s in if c == b'"' || c == b'\\' then b'\\' ∷ (c ∷ rest) else c ∷ rest

-- jqKey
unfoldable pub jq_key : Text → Text
unfolding is_jq_identifier escape
jq_key name = if is_jq_identifier name then name else b'"' ∷ (escape name ++ (b'"' ∷ []))

-- jqAccess
unfoldable pub jq_access : Text → Text
unfolding is_jq_identifier
jq_access name =
    if is_jq_identifier name then b'.' ∷ name else codes ".[\"" ++ (name ++ codes "\"]")

unfoldable pub as_text : Text → Text
unfolding jq_access
as_text argument = codes "(" ++ (jq_access argument ++ codes " | tostring)")

unfoldable pub unless_null : Text → Text
unfolding as_text
unless_null argument =
    codes "(if "
    ++ (jq_access argument
        ++ (codes " != null then " ++ (as_text argument ++ codes " else null end)")))

unfoldable pub entry_text : Text → Text → Text
unfolding jq_key
entry_text name value = jq_key name ++ (codes ": " ++ value)

abbrev first_text : List Text → Text
first_text [] = []
first_text (t ∷ ts) = t

-- paramSchemaType
abbrev param_schema_type : Option ApiSchema → Text
param_schema_type none = []
param_schema_type (some s) = first_text s.kinds

-- the test on the type
unfoldable pub is_numeric : Parameter → Bool
is_numeric p =
    param_schema_type p.schema == codes "integer" || param_schema_type p.schema == codes "number"

abbrev pub path_entry : ArgMapping → Parameter → Text
path_entry m p = entry_text p.name (as_text (arg_name m path p.name))

abbrev pub query_entry : ArgMapping → Parameter → Text
query_entry m p =
    let argument = arg_name m query p.name in
    if p.required
    then (if is_numeric p
        then entry_text p.name (as_text argument)
        else entry_text p.name (jq_access argument))
    else (if is_numeric p
        then entry_text p.name (unless_null argument)
        else entry_text p.name (jq_access argument))

abbrev pub header_entry : ArgMapping → Parameter → Text
header_entry m p = entry_text p.name (jq_access (arg_name m header p.name))

abbrev pub body_entry : ArgMapping → Text × Option ApiSchema → Text
body_entry m (name, schema) = entry_text name (jq_access (arg_name m body name))

-- the parameters at a place
unfoldable pub placed : Text → List (Option Parameter) → List Parameter
placed place [] = []
placed place (none ∷ ps) = placed place ps
placed place (some p ∷ ps) =
    let rest = placed place ps in if p.place == place then p ∷ rest else rest

abbrev pub properties_of : Option BodySchema → List (Text × Option ApiSchema)
properties_of none = []
properties_of (some b) = b.properties

-- strings.Join(ts, ", ")
abbrev pub commas : List Text → Text
commas [] = []
commas (t ∷ []) = t
commas (t ∷ (u ∷ ts)) = t ++ (codes ", " ++ commas (u ∷ ts))

-- an object that is not empty
abbrev pub section_text : Text × List Text → Text
section_text (title, es) = title ++ (codes ": {" ++ (commas es ++ codes "}"))

-- the sections with an entry
abbrev pub add_section {ℓ} :
    {A : Type ℓ} → Text → List A → List (Text × List A) → List (Text × List A)
add_section title [] rest = rest
add_section title (e ∷ es) rest = (title, e ∷ es) ∷ rest

unfoldable pub sections : Operation → ArgMapping → List (Text × List Text)
unfolding placed entry_text as_text unless_null
sections op m =
    add_section (codes "path") (map (path_entry m) (placed (codes "path") op.parameters)) (
      add_section (codes "query") (map (query_entry m) (placed (codes "query") op.parameters)) (
        add_section (codes "body") (map (body_entry m) (properties_of op.json_body)) (
          add_section (codes "headers")
            (map (header_entry m) (placed (codes "header") op.parameters)) [])))

abbrev pub generated : List Text → Text
generated [] = codes "{}"
generated (s ∷ ss) = codes "{" ++ (commas (s ∷ ss) ++ codes "}")

-- GenerateRequestJq; the override is the text of the extension x-mcp-request-transform
unfoldable pub generate_request_jq : Option Text → Operation → ArgMapping → Text
unfolding sections
generate_request_jq none op m = generated (map section_text (sections op m))
generate_request_jq (some []) op m = generated (map section_text (sections op m))
generate_request_jq (some (c ∷ s)) op m = c ∷ s

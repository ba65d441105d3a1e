-- ===== src/Openapi/Arguments.antt =====
-- pkg/openapi/inputschema.go, DeriveArgMapping: the argument's name for each parameter and property.
use go_auto_mcp.Prelude.{
  Option, none, some, List, [], ◌∷◌, ◌++◌, Text, codes, text_eq, ◌==◌, nat_eq, if◌then◌else◌, Dict,
  lookup, insert,
}
use go_auto_mcp.Openapi.{
  Location, path, query, header, body, ApiSchema, Parameter, BodySchema, Operation,
}

-- an occurrence: where it is, and its name
abbrev pub Occurrence : Type 0
Occurrence = Location × Text

-- `p.In == "path" || p.In == "query" || p.In == "header"`
unfoldable pub location_of : Text → Option Location
location_of place =
    if place == codes "path"
    then some path
    else if place == codes "query"
    then some query
    else if place == codes "header"
    then some header
    else none

abbrev pub location_text : Location → Text
location_text path = codes "path"
location_text query = codes "query"
location_text header = codes "header"
location_text body = codes "body"

abbrev pub cons_at : Option Location → Text → List Occurrence → List Occurrence
cons_at none name os = os
cons_at (some l) name os = (l, name) ∷ os

unfoldable pub parameter_occurrences : List (Option Parameter) → List Occurrence
unfolding location_of
parameter_occurrences [] = []
parameter_occurrences (none ∷ ps) = parameter_occurrences ps
parameter_occurrences (some p ∷ ps) =
    cons_at (location_of p.place) p.name (parameter_occurrences ps)

abbrev pub property_occurrences : List (Text × Option ApiSchema) → List Occurrence
property_occurrences [] = []
property_occurrences ((name, schema) ∷ ps) = (body, name) ∷ property_occurrences ps

abbrev pub body_occurrences : Option BodySchema → List Occurrence
body_occurrences none = []
body_occurrences (some b) = property_occurrences b.properties

unfoldable pub occurrences : Operation → List Occurrence
unfolding parameter_occurrences
occurrences op = parameter_occurrences op.parameters ++ body_occurrences op.json_body

abbrev pub or_nil {ℓ} : {A : Type ℓ} → Option (List A) → List A
or_nil none = []
or_nil (some l) = l

-- `collected[name] = append(collected[name], ...)`, for all occurrences
unfoldable pub collect {ℓ} :
    {A : Type ℓ} → List (A × Text) → Dict Text (List A) → Dict Text (List A)
collect [] m = m
collect ((a, name) ∷ os) m = collect os (insert name (or_nil (lookup name m) ++ (a ∷ [])) m)

-- the key of an ArgMapping
abbrev pub arg_key : Location → Text → Text
arg_key l name = location_text l ++ (codes ":" ++ name)

abbrev pub renamed : Location → Text → Text
renamed l name = name ++ (codes "_" ++ location_text l)

abbrev pub ArgMapping : Type 0
ArgMapping = Dict Text Text

abbrev pub rename_all : Text → List Location → ArgMapping → ArgMapping
rename_all name [] m = m
rename_all name (l ∷ ls) m = rename_all name ls (insert (arg_key l name) (renamed l name) m)

-- the entries of one name: the name itself, or the renamed ones where it occurs more than once
abbrev pub map_name : Text → List Location → ArgMapping → ArgMapping
map_name name [] m = m
map_name name (l ∷ []) m = insert (arg_key l name) name m
map_name name (l ∷ (l' ∷ ls)) m = rename_all name (l ∷ (l' ∷ ls)) m

unfoldable pub map_names : Dict Text (List Location) → ArgMapping → ArgMapping
map_names [] m = m
map_names ((name, ls) ∷ names) m = map_names names (map_name name ls m)

-- DeriveArgMapping
unfoldable pub derive_arg_mapping : Operation → ArgMapping
unfolding occurrences collect map_names
derive_arg_mapping op = map_names (collect (occurrences op) []) []

abbrev pub or_name : Text → Option Text → Text
or_name name none = name
or_name name (some n) = n

-- ArgMapping.ArgName
unfoldable pub arg_name : ArgMapping → Location → Text → Text
arg_name m l name = or_name name (lookup (arg_key l name) m)

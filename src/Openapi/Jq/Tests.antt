-- ===== src/Openapi/Jq/Tests.antt =====
-- Expressions of an operation with a parameter in the path and a property of the body.
use go_auto_mcp.Prelude.{◌≡◌, refl, true, none, some, [], ◌∷◌, codes, text_beq, lookup}
use go_auto_mcp.Openapi.{Operation}
use go_auto_mcp.Openapi.Arguments.{arg_name}
use go_auto_mcp.Openapi.Jq.{generate_request_jq, jq_access}
use go_auto_mcp.Openapi.Jq.Read.{Sections, field, text, read_expression, read_access}
use go_auto_mcp.Openapi.Jq.Names.{all_simple}
use go_auto_mcp.Openapi.Jq.Values.{all_simple_in}
use go_auto_mcp.Openapi.Jq.Whole.{requested, read_expression-generate_request_jq}

abbrev get_pet : Operation
get_pet = record {
  parameters =
      some (record {
        name = codes "pet-id";
        place = codes "path";
        required = true;
        description = [];
        schema = none;
      })
      ∷ [];
  json_body = some (record { properties = (codes "name", none) ∷ []; required = [] });
}

abbrev of_pet : Sections
of_pet =
    (codes "path", (codes "pet-id", text (codes "pet-id")) ∷ [])
    ∷ ((codes "body", (codes "name", field (codes "name")) ∷ []) ∷ [])

generated_text :
    generate_request_jq none get_pet []
    ≡ codes "{path: {\"pet-id\": (.[\"pet-id\"] | tostring)}, body: {name: .name}}"
unfolding generate_request_jq text_beq arg_name lookup
generated_text = refl

read_expression-generate_request_jq_example :
    read_expression (generate_request_jq none get_pet []) ≡ some of_pet
unfolding requested all_simple all_simple_in text_beq arg_name lookup
read_expression-generate_request_jq_example =
    read_expression-generate_request_jq get_pet [] (record {
      paths = ((refl, refl), tt);
      queries = tt;
      bodies = ((refl, refl), tt);
      headers = tt;
    })

-- a quote in a name is not escaped, and ends the string
quote_not_escaped : jq_access (codes "a\"b") ≡ codes ".[\"a\"b\"]"
unfolding jq_access
quote_not_escaped = refl

quote_not_read : read_access (jq_access (codes "a\"b")) ≡ none
unfolding jq_access read_access
quote_not_read = refl

-- ===== src/Naming/Slug/Tests.antt =====
-- Slugs of paths and identifiers, worked out.
use go_auto_mcp.Prelude.{◌≡◌, refl, true, codes, text_beq}
use go_auto_mcp.Naming.Slug.{SlugRules, sanitize_identifier, slugify}
use go_auto_mcp.Naming.Slug.Shape.{IsSlug, sanitize_identifier-IsSlug}
use go_auto_mcp.Naming.Slug.Stable.{sanitize_identifier_idempotent}

abbrev default_rules : SlugRules
default_rules = record {
  replace_slashes = true;
  replace_braces = true;
  expand_camel_case = true;
  lowercase = true;
  collapse_separators = true;
}

greeting : sanitize_identifier (codes "getGreeting") default_rules ≡ codes "get_greeting"
unfolding sanitize_identifier
greeting = refl

acronym : sanitize_identifier (codes "JWTAuth..HTTPSRe") default_rules ≡ codes "jwt_auth_https_re"
unfolding sanitize_identifier
acronym = refl

pets : slugify (codes "get") (codes "/pets/{petId}") true default_rules ≡ codes "get_pets_petid"
unfolding slugify text_beq
pets = refl

sanitize_identifier-IsSlug_example :
    IsSlug default_rules (sanitize_identifier (codes "__getHTTPThing--x_") default_rules)
sanitize_identifier-IsSlug_example =
    sanitize_identifier-IsSlug (codes "__getHTTPThing--x_") default_rules

sanitize_identifier_idempotent_example :
    sanitize_identifier (sanitize_identifier (codes "listAllJWTKeys") default_rules) default_rules
    ≡ sanitize_identifier (codes "listAllJWTKeys") default_rules
sanitize_identifier_idempotent_example =
    sanitize_identifier_idempotent (codes "listAllJWTKeys") default_rules refl

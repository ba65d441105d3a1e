-- ===== src/Openapi.antt =====
-- pkg/openapi/inputschema.go: the arguments of a tool, from the parameters and the body of its
-- operation. A reference that does not resolve is a value that is not there.
pub mod Arguments
pub mod Schema
pub mod Collected
pub mod Named
pub mod Agreed
pub mod Jq
pub mod Generator
mod Tests
use go_auto_mcp.Prelude.{ℕ, Bool, Option, List, Text}

-- the places that an argument can come from
pub data Location : Type 0 where
  path query header body : Location

-- openapi3.Schema, as far as it is kept; numbers as they are written
pub record ApiSchema : Type 0 where
  pub kinds : List Text
  pub description : Text
  pub format : Text
  pub minimum : Option Text
  pub maximum : Option Text
  pub min_length : ℕ
  pub max_length : Option ℕ
  pub pattern_text : Text
  pub enum : List Text

-- openapi3.Parameter
pub record Parameter : Type 0 where
  pub name : Text
  pub place : Text
  pub required : Bool
  pub description : Text
  pub schema : Option ApiSchema

-- the JSON schema of a request body: its properties and the required ones
pub record BodySchema : Type 0 where
  pub properties : List (Text × Option ApiSchema)
  pub required : List Text

-- openapi3.Operation; the body is that of application/json, if it resolves
pub record Operation : Type 0 where
  pub parameters : List (Option Parameter)
  pub json_body : Option BodySchema

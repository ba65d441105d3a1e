-- ===== src/Http.antt =====
-- pkg/upstream/http/executor.go and pkg/content: a call of an HTTP tool, from the checks before the
-- request over the circuit breaker to the result. JSON is a value here; its texts, jq programs, the
-- HTTP client and the spec's validators are parameters.
pub mod Format
pub mod Errors
pub mod Dispatch
pub mod Breaker
pub mod Sent
mod Tests
use go_auto_mcp.Prelude.{Result, ℕ, Bool, Option, List, Text, ℤ}

-- what encoding/json decodes into `any`: a number is an integer, or as it is written
mutual
  pub data Json : Type 0 where
    null : Json
    boolean : Bool → Json
    integer : ℤ → Json
    decimal : Text → Json
    string : Text → Json
    array : Items → Json
    object : Fields → Json

  pub data Items : Type 0 where
    no_items : Items
    item : Json → Items → Items

  pub data Fields : Type 0 where
    no_fields : Fields
    field : Text → Json → Fields → Fields

-- sdkmcp.Content: bytes with their MIME type, or a text
pub data Content : Type 0 where
  text : Text → Content
  image audio resource : Text → Text → Content

-- sdkmcp.CallToolResult
pub record ToolResult : Type 0 where
  pub is_error : Bool
  pub contents : List Content

-- A compiled jq program: the values that its iterator gives for an input, where an error is a text
-- and nothing follows it that the program would look at.
abbrev pub Program : Type 0
Program = Json → List (Result Text Json)

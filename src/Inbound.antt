-- ===== src/Inbound.antt =====
-- pkg/auth/inbound: who may call what. A request passes the dispatching middleware, which waives
-- authentication for public tools and chooses the validator, and the validating middleware.
pub mod Peek
pub mod Gate
pub mod Keys
pub mod Waived
mod Tests
use go_auto_mcp.Prelude.{
  ℕ, Bool, true, false, Option, none, some, List, [], ◌∷◌, ◌++◌, ◌≡◌, String, Text, codes, text_eq,
  ◌==◌, ◌&&◌, ◌||◌, Result, err, ok, nat_eq, if◌then◌else◌, leb,
}

-- TokenInfo, less the Extra that scripts may give
pub record TokenInfo : Type 0 where
  pub subject : Text
  pub scopes : List Text
  pub audience : List Text

-- an error of ValidateToken: DeniedError, or any other
pub data AuthError : Type 0 where
  denied : ℕ → Text → AuthError
  invalid : Text → AuthError

-- TokenValidator: `ValidateToken` acts on the world W.
pub record Validator (W : Type 0) : Type 0 where
  pub validate : Text → W → Result AuthError TokenInfo × W

-- What http.Request has of interest: Body is not there, or what ReadAll makes of it, with a flag
-- that tells that reading failed behind these bytes.
pub record Request : Type 0 where
  pub header : Text → Text
  pub body : Option (Text × Bool)
  pub tls : Bool
  pub host : Text
  pub url_host : Text

-- What a middleware's response is: the next handler's, or one that it writes itself, with its
-- status, its error code and, for 401, the address of the resource metadata.
pub data Response (X : Type 0) : Type 0 where
  served : X → Response X
  unauthorized : Text → Text → Response X
  refused : ℕ → Text → Response X

-- ===== src/Inbound/Peek.antt =====
-- pkg/auth/inbound/middleware.go: what the middlewares read of a request, and the responses that
-- they write. The decoding of a JSON-RPC message is a parameter.
use go_auto_mcp.Prelude.{
  trim_space, cut_prefix, ◌≡◌, sym, ◌∙◌, Bool-cases, inl, inr, ℕ, Bool, false, Option, none, some,
  [], ◌++◌, String, string_eq, Text, codes, text_eq, ◌==◌, ◌||◌, nat_eq, if◌then◌else◌,
}
use go_auto_mcp.Inbound.{
  served, AuthError, denied, invalid, Request, Response, unauthorized, refused,
}

-- the token of a request, empty if there is none
unfoldable pub request_token : Text → Request → Text
unfolding cut_prefix trim_space
request_token api_key_header r =
    if api_key_header == []
    then elim (cut_prefix (codes "Bearer ") (r.header (codes "Authorization"))) [
      | none ↦ []
      | some after ↦ trim_space after
    ]
    else r.header api_key_header

abbrev pub request_scheme : Request → Text
request_scheme r =
    let proto = r.header (codes "X-Forwarded-Proto") in
    if proto == [] then (if r.tls then codes "https" else codes "http") else proto

abbrev pub request_host : Request → Text
request_host r = if r.host == [] then r.url_host else r.host

-- resourceMetadataURL
unfoldable pub resource_metadata_url : Request → Text
resource_metadata_url r =
    request_scheme r
    ++ (codes "://" ++ (request_host r ++ codes "/.well-known/oauth-protected-resource"))

unfoldable pub write_unauthorized : {X : Type 0} → Request → Text → Response X
unfolding resource_metadata_url
write_unauthorized r code = unauthorized code (resource_metadata_url r)

abbrev pub denied_code : Text → Text
denied_code message = if message == [] then codes "access_denied" else message

-- writeDenied
unfoldable pub write_denied : {X : Type 0} → Request → ℕ → Text → Response X
unfolding write_unauthorized
write_denied r status message =
    if status == 0 || status == 401
    then write_unauthorized r (denied_code message)
    else refused status (denied_code message)

-- what is written for an error of the validator
abbrev pub write_error : {X : Type 0} → Request → AuthError → Response X
write_error r (denied status message) = write_denied r status message
write_error r (invalid message) = write_unauthorized r (codes "invalid_token")

-- what was found of a request: the tool of a tools/call, and the body for the next handler
pub record Peeked : Type 0 where
  pub tool : Option String
  pub restored : Option (Text × Bool)

module _ (parse : Text → Option (String × String)) where
  -- the tool of a message of method and tool name
  abbrev pub tool_of : Option (String × String) → Option String
  tool_of none = none
  tool_of (some (method, name)) = if method == "tools/call" then some name else none

  -- peekToolCallName with the body put back: what was read, which no longer fails
  unfoldable pub peek : Option (Text × Bool) → Peeked
  peek none = record { tool = none; restored = none }
  peek (some (bytes, failed)) = record {
    tool = if failed || bytes == [] then none else tool_of (parse bytes);
    restored = some (bytes, false);
  }

-- the name that the dispatching middleware looks at, empty unless the request calls a tool
abbrev pub tool_name : Option String → String
tool_name none = ""
tool_name (some tool) = tool

pub write_unauthorized_ends :
    {X : Type 0} (r : Request) (code : Text) (x : X) → write_unauthorized r code ≡ served x → ⊥
unfolding write_unauthorized
write_unauthorized_ends r code x h = cc

-- An error of the validator never lets a request through.
pub write_error_ends :
    {X : Type 0} (r : Request) (e : AuthError) (x : X) → write_error r e ≡ served x → ⊥
unfolding write_denied
write_error_ends r (invalid message) x h = write_unauthorized_ends r (codes "invalid_token") x h
write_error_ends r (denied status message) x h = elim (Bool-cases (status == 0 || status == 401)) [
  | inl e ↦ write_unauthorized_ends r (denied_code message) x (sym (simp (e, write_denied)) ∙ h)
  | inr e ↦
      let t : Response _ = refused status (denied_code message) in
      let f : t ≡ served x = sym (simp (e, write_denied)) ∙ h in cc
]

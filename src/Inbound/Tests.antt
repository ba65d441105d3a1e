-- ===== src/Inbound/Tests.antt =====
-- Requests to a proxy with one public tool, and a validator that knows one key.
use go_auto_mcp.Prelude.{
  is_space, trim_left, trim_right, trim_space, cut_prefix, ℕ, suc, Bool, true, false, Option, none,
  some, [], ◌∷◌, ◌≡◌, refl, String, string_eq, Text, codes, text_eq, text_beq, ◌==◌, Result, ok,
  lookup, contains, if◌then◌else◌,
}
use go_auto_mcp.Upstreams.Registry.{Entry, Registry}
use go_auto_mcp.Upstreams.Registry.Calls.{auth_required}
use go_auto_mcp.Manager.Views.{tool_needs_auth}
use go_auto_mcp.Inbound.{TokenInfo, AuthError, Request}
use go_auto_mcp.Inbound.Peek.{request_token, peek}
use go_auto_mcp.Inbound.Gate.{
  Guard, dispatch_middleware, validator_middleware, guard_for, Passed, dispatch_middleware-Passed,
}
use go_auto_mcp.Inbound.Waived.{WaivedCall, dispatch_middleware-WaivedCall}
use go_auto_mcp.Inbound.Keys.{Clean}

abbrev public_entry : Entry
public_entry = record {
  prefixed_name = "x";
  upstream = none;
  mcp_tool = record { name = "x" };
  auth_required = false;
  operation_node = none;
  rate_limit = "";
  ui_handler = none;
  cache_name = "";
}

abbrev tools : Registry
tools = record {
  by_prefixed_name = ("x", public_entry) ∷ ("y", record public_entry { auth_required = true }) ∷ [];
  by_prefix = [];
  by_upstream_name = [];
  spec_root_by_name = [];
  tool_list = [];
  separator = "_";
  groups = [];
}

-- a body is the name of the tool that it calls
abbrev parse : Text → Option (String × String)
parse body = if body == codes "x" then some ("tools/call", "x") else some ("tools/call", "y")

abbrev info : TokenInfo
info = record { subject = codes "ann"; scopes = []; audience = [] }

-- a validator that counts the tokens that it looks at
abbrev check_token : Text → ℕ → Result AuthError TokenInfo × ℕ
check_token token w = (ok info, suc w)

abbrev guard : Guard ℕ
guard = record { validator = record { validate = check_token }; api_key_header = [] }

abbrev next : Option TokenInfo → Request → ℕ → Bool × ℕ
next none r w = (false, w)
next (some who) r w = (true, w)

abbrev no_header : Text → Text
no_header name = []

abbrev bearer_header : Text → Text
bearer_header name = codes "Bearer k"

abbrev request : (Text → Text) → Text → Request
request header body = record {
  header = header;
  body = some (body, false);
  tls = false;
  host = codes "h";
  url_host = [];
}

dispatch_middleware-Passed_example :
    Passed next parse guard []
      (tool_needs_auth (some tools))
      none
      (request bearer_header (codes "y"))
      0
      (true, 1)
unfolding text_beq lookup
dispatch_middleware-Passed_example =
    dispatch_middleware-Passed next parse guard [] (tool_needs_auth (some tools)) none
      (request bearer_header (codes "y")) 0 true 1
      (unfold dispatch_middleware validator_middleware guard_for peek request_token cut_prefix
          trim_space trim_left trim_right is_space tool_needs_auth auth_required in
        refl)

-- a request with a content type and no token
abbrev content_type : Text → Text
content_type name = if name == codes "Content-Type" then codes "application/json" else []

abbrev key_guard : Guard ℕ
key_guard = record { validator = guard.validator; api_key_header = codes "X-Api-Key" }

dispatch_middleware-WaivedCall_example :
    WaivedCall parse (some tools) (request content_type (codes "x"))
unfolding text_beq lookup
dispatch_middleware-WaivedCall_example =
    dispatch_middleware-WaivedCall next parse guard (("u", key_guard) ∷ []) (some tools)
      (some (λ tool. "u")) (request content_type (codes "x")) 0 false 0
      (unfold request_token cut_prefix in refl) (unfold request_token cut_prefix in refl, tt)
      (unfold dispatch_middleware peek tool_needs_auth auth_required in refl)

-- without a token, a tool that is not public is not reached
refused_call :
    (dispatch_middleware next parse guard []
      (tool_needs_auth (some tools))
      none
      (request no_header (codes "y"))
      0).1
    ≡ 0
unfolding text_beq lookup
refused_call =
    unfold dispatch_middleware validator_middleware guard_for peek request_token cut_prefix
      tool_needs_auth auth_required in
    refl

Clean-a : Clean (codes "a")
unfolding text_beq
Clean-a = record {
  some_char = refl;
  no_comma = unfold contains in refl;
  trimmed = unfold trim_space trim_left trim_right is_space in refl;
}

-- ===== src/Http/Tests.antt =====
-- Calls of one tool whose upstream answers 200, and a breaker that is closed.
use go_auto_mcp.Prelude.{
  if◌then◌else◌, ℕ, suc, Bool, false, not, Option, none, some, [], ◌∷◌, ◌≡◌, refl, Text, codes,
  text_eq, text_beq, nat_eq, pos, Result, ok, trim_space, trim_left, trim_right, is_space,
  cut_prefix, has_prefix, has_suffix,
}
use go_auto_mcp.Http.{Json, string, Program}
use go_auto_mcp.Http.Format.{detect, detect_auto, strip_mime_params, before_semicolon, to_lower}
use go_auto_mcp.Http.Errors.{
  ProblemDetail, parse_error_body, with_status, problem_object, lacks_status,
}
use go_auto_mcp.Http.Dispatch.{Validation, Transforms, Response, Entry}
use go_auto_mcp.Http.Breaker.{open_state, Call, Breaker, Sends, serve_http}
use go_auto_mcp.Http.Sent.{serve_http-Sends}

abbrev same : Program
same v = ok v ∷ []

detected : detect (codes "auto") (codes "Image/png; q=1") ≡ codes "image"
unfolding detect strip_mime_params before_semicolon to_lower detect_auto has_prefix has_suffix
    cut_prefix trim_space trim_left trim_right is_space text_beq
detected = refl

abbrev decode : Text → Option Json
decode s = some (string s)

abbrev decode_problem : Text → Option ProblemDetail
decode_problem s =
    some (record { kind = []; title = s; status = pos 0; detail = []; instance_uri = [] })

abbrev encode : Json → Text
encode v = codes "{}"

abbrev decimal : ℕ → Text
decimal n = codes "200"

-- a problem detail without a status keeps the status zero
zero_status :
    with_status (pos 404) (
      parse_error_body decode decode_problem encode decimal
        (codes "t")
        (codes "application/problem+json"))
    ≡ problem_object
        (record { kind = []; title = codes "t"; status = pos 0; detail = []; instance_uri = [] })
unfolding parse_error_body strip_mime_params before_semicolon to_lower trim_space trim_left
    trim_right is_space text_beq lacks_status problem_object
zero_status = refl

abbrev validation : Validation
validation = record {
  validate_request = false;
  validate_response = false;
  response_validation_failure = codes "warn";
  success_status = 200 ∷ [];
  error_status = 404 ∷ [];
}

abbrev entry : Entry Text Text
entry = record {
  prefixed_name = codes "x";
  validation = validation;
  response_format = codes "text";
  validator = none;
}

abbrev transforms : Transforms
transforms = record { response = none; error = same }

abbrev response : Response
response = record { status = 200; content_type = codes "text/plain"; body = codes "hi" }

-- an HTTP client that counts requests
abbrev send : Text → ℕ → Result Text Response × ℕ
send req w = (ok response, suc w)

abbrev call : Call Text
call = record {
  transform_error = none;
  auth_result = none;
  transforms = some transforms;
  request = some (ok (codes "http://u/"));
}

-- a breaker whose state tells whether it is open
abbrev breaker : Breaker Bool
breaker = record {
  admit = λ open_now. (if open_now then some open_state else none, open_now);
  done = λ success open_now. not success;
  message = λ open_now. codes "open";
}

serve_http-Sends_example :
    Sends entry send call 0
      (serve_http decode decode_problem encode decimal entry send (some breaker) call 0 false).1
serve_http-Sends_example =
    serve_http-Sends decode decode_problem encode decimal entry send (some breaker) call 0 false

-- the same client of an upstream that is down
abbrev failing_send : Text → ℕ → Result Text Response × ℕ
failing_send req w = (ok (record response { status = 503 }), suc w)

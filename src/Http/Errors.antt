-- ===== src/Http/Errors.antt =====
-- pkg/content/error.go: error responses of an upstream, and the result that a tool call makes of one.
-- Decoding a problem detail and writing a number are parameters.
use go_auto_mcp.Prelude.{
  ℕ, Bool, true, false, Option, none, some, [], ◌∷◌, ◌++◌, Text, codes, text_eq, ◌==◌, ℤ, pos,
  Result, err, ok, if◌then◌else◌,
}
use go_auto_mcp.Http.{
  Json, null, integer, string, object, Fields, no_fields, field, text, ToolResult, Program,
}
use go_auto_mcp.Http.Format.{strip_mime_params, to_lower, run_once, marshal_to_string, ContentError}

-- ProblemDetail, with what json.Unmarshal leaves at zero for a member that is missing
pub record ProblemDetail : Type 0 where
  pub kind : Text
  pub title : Text
  pub status : ℤ
  pub detail : Text
  pub instance_uri : Text

unfoldable pub problem_object : ProblemDetail → Json
problem_object p = object (
    field (codes "type") (string p.kind) (
      field (codes "title") (string p.title) (
        field (codes "status") (integer p.status) (
          field (codes "detail") (string p.detail)
            (field (codes "instance") (string p.instance_uri) no_fields)))))

-- `m["status"] == nil`: the member is missing or null
unfoldable pub lacks_status : Fields → Bool
lacks_status no_fields = true
lacks_status (field key value fields) =
    let rest = lacks_status fields in
    if key == codes "status" then elim value [ null ↦ true | _ ↦ false ] else rest

-- `m["status"] = statusCode`
unfoldable pub put_status : ℤ → Fields → Fields
put_status status no_fields = field (codes "status") (integer status) no_fields
put_status status (field key value fields) =
    let rest = put_status status fields in
    if key == codes "status" then field key (integer status) fields else field key value rest

abbrev pub with_status : ℤ → Json → Json
with_status status (object fields) =
    if lacks_status fields then object (put_status status fields) else object fields
with_status status other = other

abbrev pub or_string : Text → Option Json → Json
or_string body none = string body
or_string body (some value) = value

abbrev pub or_decoded : Option ProblemDetail → Json → Json
or_decoded none other = other
or_decoded (some p) other = problem_object p

module _ (decode : Text → Option Json) (decode_problem : Text → Option ProblemDetail)
    (encode : Json → Text) (decimal : ℕ → Text) where
  -- ParseErrorBody
  unfoldable pub parse_error_body : Text → Text → Json
  unfolding strip_mime_params to_lower problem_object
  parse_error_body body content_type =
      let plain = or_string body (decode body) in
      if to_lower (strip_mime_params content_type) == codes "application/problem+json"
      then or_decoded (decode_problem body) plain
      else plain

  abbrev pub or_fallback : Text → ℕ → Result ContentError Json → Json
  or_fallback body status (ok value) = value
  or_fallback body status (err e) = object (
      field (codes "error") (string (codes "upstream returned " ++ decimal status))
        (field (codes "body") (string body) no_fields))

  -- ToErrorResult
  unfoldable pub to_error_result : Text → Text → ℕ → Program → ToolResult
  unfolding parse_error_body lacks_status put_status run_once
  to_error_result body content_type status error_transform =
      let parsed = with_status (pos status) (parse_error_body body content_type) in
      record {
        is_error = true;
        contents =
            text (
              marshal_to_string decode encode
                (or_fallback body status (run_once error_transform parsed)))
            ∷ [];
      }

-- ===== src/Http/Breaker.antt =====
-- pkg/upstream/http/executor.go, ServeHTTP: the checks before a request, and the circuit breaker around
-- it. gobreaker is the interface Breaker over its states B.
use go_auto_mcp.Prelude.{
  ℕ, Bool, true, false, Option, none, some, ◌++◌, ◌≡◌, Text, codes, text_eq, ltb, Result, err, ok,
  if◌then◌else◌,
}
use go_auto_mcp.Http.{Json, ToolResult}
use go_auto_mcp.Http.Errors.{ProblemDetail}
use go_auto_mcp.Http.Dispatch.{
  Transforms, Response, Validator, Entry, error_text, Dispatched, answered, unsent, dispatch,
}

-- what ServeHTTP leaves as the error of a call
pub data ServeError : Type 0 where
  no_transforms no_envelope : ServeError
  unbuilt not_executed : Text → ServeError

-- callState
pub record CallState : Type 0 where
  pub result : Option ToolResult
  pub err : Option ServeError

abbrev pub returns : ToolResult → CallState
returns r = record { result = some r; err = none }

abbrev pub fails : ServeError → CallState
fails e = record { result = none; err = some e }

-- what the middlewares in front left in the context; the request is not there without an envelope,
-- and an error if its URL, its body or the request could not be built
pub record Call (Req : Type 0) : Type 0 where
  pub transform_error : Option Text
  pub auth_result : Option ToolResult
  pub transforms : Option Transforms
  pub request : Option (Result Text Req)

-- gobreaker.ErrOpenState and gobreaker.ErrTooManyRequests
pub data Refused : Type 0 where
  open_state too_many_requests : Refused

-- the errors that Execute returns: its own, and those of the function that it runs
pub data BreakerError : Type 0 where
  not_run : Refused → BreakerError
  upstream_failure : BreakerError
  other_error : ServeError → BreakerError

-- `admit` is what Execute does before the function runs: it may refuse; `done` is told afterwards
-- whether the function returned no error. The message is openCircuitResult's.
pub record Breaker (B : Type 0) : Type 0 where
  pub admit : B → Option Refused × B
  pub done : Bool → B → B
  pub message : B → Text

abbrev pub settled : Dispatched → CallState
settled (answered r status) = returns r
settled (unsent e) = fails (not_executed e)

-- what the function that the breaker runs returns
abbrev pub executed : Dispatched → Option ToolResult × Option BreakerError
executed (answered r status) =
    if ltb status 500 then (some r, none) else (some r, some upstream_failure)
executed (unsent e) = (none, some (other_error (not_executed e)))

abbrev pub no_error : Option BreakerError → Bool
no_error none = true
no_error (some e) = false

-- the switch on the error that Execute returned
abbrev pub switched : Text → Option ToolResult × Option BreakerError → CallState
switched message (result, some (not_run refused)) = returns (error_text message)
switched message (result, some upstream_failure) = record { result = result; err = none }
switched message (result, some (other_error e)) = record { result = result; err = some e }
switched message (result, none) = record { result = result; err = none }

abbrev pub after_dispatch : {W : Type 0} → Dispatched × W → CallState × W
after_dispatch (d, w) = (settled d, w)

module _ {Req Input : Type 0} (entry : Entry Req Input) where
  abbrev pub ignored : Result Text Input → Option Input
  ignored (err e) = none
  ignored (ok input) = some input

  abbrev pub validated : Result Text Input → Result Text (Option Input)
  validated (err e) = err (codes "request validation failed: " ++ e)
  validated (ok input) = ok (some input)

  abbrev pub input_from : Option (Validator Req Input) → Req → Result Text (Option Input)
  input_from none req = ok none
  input_from (some v) req =
      if entry.validation.validate_request
      then validated (v.validate_request req)
      else if entry.validation.validate_response
      then ok (ignored (v.build_input req))
      else ok none

  -- the input for the check of the response, or why the request is not sent
  unfoldable pub request_input : Req → Result Text (Option Input)
  request_input req = input_from entry.validator req

  module _ {W : Type 0} (send : Req → W → Result Text Response × W) where
    -- The ways in which a call leaves the world: untouched, or with one request sent, which the
    -- middlewares and the request's validation let pass.
    pub data Sends (call : Call Req) (w : W) : W → Type 0 where
      nothing : Sends call w w
      one :
          (req : Req) (input : Option Input)
          → call.transform_error ≡ none
          → call.auth_result ≡ none
          → call.request ≡ some (ok req)
          → request_input req ≡ ok input
          → Sends call w (send req w).1

module _ (decode : Text → Option Json) (decode_problem : Text → Option ProblemDetail)
    (encode : Json → Text) (decimal : ℕ → Text) {Req Input W B : Type 0} (entry : Entry Req Input)
    (send : Req → W → Result Text Response × W) where
  -- after the function has run, by what it returned
  abbrev pub breaker_done :
      Breaker B → B → W → Option ToolResult × Option BreakerError → CallState × W × B
  breaker_done breaker b w (result, failure) =
      let b' = breaker.done (no_error failure) b in
      (switched (breaker.message b') (result, failure), w, b')

  abbrev pub admitted :
      Transforms → Req → Option Input → W → Breaker B → Option Refused × B → CallState × W × B
  admitted t req input w breaker (some refused, b) =
      (switched (breaker.message b) (none, some (not_run refused)), w, b)
  admitted t req input w breaker (none, b) =
      let (d, w') = dispatch decode decode_problem encode decimal entry t send req input w in
      breaker_done breaker b w' (executed d)

  abbrev pub guarded :
      Option (Breaker B) → Transforms → Req → Option Input → W → B → CallState × W × B
  guarded none t req input w b =
      let (state, w') =
        after_dispatch (dispatch decode decode_problem encode decimal entry t send req input w) in
      (state, w', b)
  guarded (some breaker) t req input w b = admitted t req input w breaker (breaker.admit b)

  abbrev pub with_input :
      Option (Breaker B) → Transforms → Req → Result Text (Option Input) → W → B → CallState × W × B
  with_input breaker t req (err e) w b = (returns (error_text e), w, b)
  with_input breaker t req (ok input) w b = guarded breaker t req input w b

  abbrev pub with_request :
      Option (Breaker B) → Transforms → Option (Result Text Req) → W → B → CallState × W × B
  with_request breaker t none w b = (fails no_envelope, w, b)
  with_request breaker t (some (err e)) w b = (fails (unbuilt e), w, b)
  with_request breaker t (some (ok req)) w b =
      with_input breaker t req (request_input entry req) w b

  abbrev pub with_transforms :
      Option (Breaker B) → Call Req → Option Transforms → W → B → CallState × W × B
  with_transforms breaker call none w b = (fails no_transforms, w, b)
  with_transforms breaker call (some t) w b = with_request breaker t call.request w b

  abbrev pub with_auth :
      Option (Breaker B) → Call Req → Option ToolResult → W → B → CallState × W × B
  with_auth breaker call (some result) w b = (returns result, w, b)
  with_auth breaker call none w b = with_transforms breaker call call.transforms w b

  abbrev pub with_transformed :
      Option (Breaker B) → Call Req → Option Text → W → B → CallState × W × B
  with_transformed breaker call (some e) w b =
      (returns (error_text (codes "request transform: " ++ e)), w, b)
  with_transformed breaker call none w b = with_auth breaker call call.auth_result w b

  -- Executor.ServeHTTP, with the upstream's circuit breaker or without one
  unfoldable pub serve_http : Option (Breaker B) → Call Req → W → B → CallState × W × B
  unfolding request_input dispatch
  serve_http breaker call w b = with_transformed breaker call call.transform_error w b

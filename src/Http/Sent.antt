-- ===== src/Http/Sent.antt =====
-- pkg/upstream/http/executor.go, ServeHTTP: which request a call sends, and what the circuit breaker
-- changes.
use mathlib.Core.Path.{subst}
use go_auto_mcp.Prelude.{ℕ, Option, none, some, ◌≡◌, refl, sym, Text, text_eq, Result, err, ok}
use go_auto_mcp.Http.{Json, ToolResult}
use go_auto_mcp.Http.Errors.{ProblemDetail}
use go_auto_mcp.Http.Dispatch.{Transforms, Response, Entry, dispatched_world}
use go_auto_mcp.Http.Breaker.{
  Refused, CallState, Call, Breaker, Sends, nothing, one, request_input, admitted, guarded,
  with_input, with_request, with_transforms, with_auth, with_transformed, serve_http,
}

module _ (decode : Text → Option Json) (decode_problem : Text → Option ProblemDetail)
    (encode : Json → Text) (decimal : ℕ → Text) {Req Input W B : Type 0} (entry : Entry Req Input)
    (send : Req → W → Result Text Response × W) where
  guarded-Sends :
      (breaker : Option (Breaker B)) (call : Call Req) (t : Transforms) (req : Req)
      (input : Option Input) (w : W) (b : B)
      → Sends entry send call w (send req w).1
      → Sends entry send call w
          (guarded decode decode_problem encode decimal entry send breaker t req input w b).1
  guarded-Sends none call t req input w b sent =
      subst (Sends entry send call w)
        (sym (dispatched_world decode decode_problem encode decimal entry t send req input w)) sent
  guarded-Sends (some breaker) call t req input w b sent = of_admission (breaker.admit b)
    where
      of_admission :
          (a : Option Refused × B)
          → Sends entry send call w
              (admitted decode decode_problem encode decimal entry send t req input w breaker a).1
      of_admission (some refused, b') = nothing
      of_admission (none, b') =
          subst (Sends entry send call w)
            (sym (dispatched_world decode decode_problem encode decimal entry t send req input w))
            sent

  request-Sends :
      (breaker : Option (Breaker B)) (call : Call Req) (t : Transforms) (w : W) (b : B)
      → call.transform_error ≡ none
      → call.auth_result ≡ none
      → (request : Option (Result Text Req)) → call.request ≡ request
      → Sends entry send call w
          (with_request decode decode_problem encode decimal entry send breaker t request w b).1
  request-Sends breaker call t w b clean open_to none h = nothing
  request-Sends breaker call t w b clean open_to (some (err e)) h = nothing
  request-Sends breaker call t w b clean open_to (some (ok req)) h =
      of_input (request_input entry req) refl
    where
      of_input :
          (r : Result Text (Option Input))
          → request_input entry req ≡ r
          → Sends entry send call w
              (with_input decode decode_problem encode decimal entry send breaker t req r w b).1
      of_input (err e) k = nothing
      of_input (ok input) k =
          guarded-Sends breaker call t req input w b (one req input clean open_to h k)

  -- A call sends at most the one request that was built for it, and none after an error of the
  -- request transform, a result of the outbound authentication or a failed request validation.
  pub serve_http-Sends :
      (breaker : Option (Breaker B)) (call : Call Req) (w : W) (b : B)
      → Sends entry send call w
          (serve_http decode decode_problem encode decimal entry send breaker call w b).1
  unfolding serve_http
  serve_http-Sends breaker call w b = of_transform call.transform_error refl
    where
      of_transforms :
          (t : Option Transforms)
          → call.transform_error ≡ none
          → call.auth_result ≡ none
          → Sends entry send call w
              (with_transforms decode decode_problem encode decimal entry send breaker call t w b).1
      of_transforms none h k = nothing
      of_transforms (some t) h k = request-Sends breaker call t w b h k call.request refl

      of_auth :
          (r : Option ToolResult)
          → call.transform_error ≡ none
          → call.auth_result ≡ r
          → Sends entry send call w
              (with_auth decode decode_problem encode decimal entry send breaker call r w b).1
      of_auth (some result) h k = nothing
      of_auth none h k = of_transforms call.transforms h k

      of_transform :
          (e : Option Text)
          → call.transform_error ≡ e
          → Sends entry send call w
              (with_transformed decode decode_problem encode decimal entry send breaker call e w
                b).1
      of_transform (some e) h = nothing
      of_transform none h = of_auth call.auth_result h refl

  abbrev SameEnd : CallState × W × B → CallState × W × B → Type 0
  SameEnd x y = (x.0 ≡ y.0) × (x.1 ≡ y.1)

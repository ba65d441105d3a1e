-- ===== src/Http/Dispatch.antt =====
-- pkg/upstream/http/executor.go, httpDispatchWithStatus: the request, and the result of the response.
-- The HTTP client acts on the world W; the checks of the spec are those of pkg/openapi's Validator.
use go_auto_mcp.Prelude.{
  ℕ, Bool, true, false, Option, none, some, List, [], ◌∷◌, ◌++◌, ◌≡◌, refl, sym, ◌∙◌, ◌↔◌, Text,
  codes, text_eq, ◌==◌, nat_eq, Result, err, ok, if◌then◌else◌, contains, Bool-cases, inl, inr, ◌⊎◌,
}
use go_auto_mcp.Http.{Json, Content, text, ToolResult, Program}
use go_auto_mcp.Http.Format.{ContentError, detect, to_mcp_content}
use go_auto_mcp.Http.Errors.{ProblemDetail, to_error_result}

-- what the entry's ValidationCfg says
pub record Validation : Type 0 where
  pub validate_request : Bool
  pub validate_response : Bool
  pub response_validation_failure : Text
  pub success_status : List ℕ
  pub error_status : List ℕ

-- transform.CompiledTransforms, as far as responses go; an error transform is always compiled
pub record Transforms : Type 0 where
  pub response : Option Program
  pub error : Program

-- a response whose body ReadAll could read
pub record Response : Type 0 where
  pub status : ℕ
  pub content_type : Text
  pub body : Text

-- openapi.Validator: the check of a request, which gives the route's input for the check of its
-- response, and that input without the check
pub record Validator (Req Input : Type 0) : Type 0 where
  pub validate_request : Req → Result Text Input
  pub build_input : Req → Result Text Input
  pub check_response : Input → Response → Option Text

-- what a call reads of its RegistryEntry
pub record Entry (Req Input : Type 0) : Type 0 where
  pub prefixed_name : Text
  pub validation : Validation
  pub response_format : Text
  pub validator : Option (Validator Req Input)

abbrev pub error_text : Text → ToolResult
error_text message = record { is_error = true; contents = text message ∷ [] }

-- what a dispatch returns: a result with its status, or the error of the call itself
pub data Dispatched : Type 0 where
  answered : ToolResult → ℕ → Dispatched
  unsent : Text → Dispatched

module _ (decode : Text → Option Json) (decode_problem : Text → Option ProblemDetail)
    (encode : Json → Text) (decimal : ℕ → Text) {Req Input : Type 0} (entry : Entry Req Input)
    (transforms : Transforms) where
  abbrev pub or_raw : Text → Result ContentError (List Content) → ToolResult
  or_raw body (ok contents) = record { is_error = false; contents = contents }
  or_raw body (err e) = record { is_error = false; contents = text body ∷ [] }

  -- buildSuccessResult
  unfoldable pub success_result : Response → ToolResult
  unfolding detect to_mcp_content
  success_result r = or_raw r.body (
      to_mcp_content decode encode (detect entry.response_format r.content_type) r.body
        r.content_type transforms.response)

  -- buildErrorResult
  unfoldable pub failure_result : Response → ToolResult
  unfolding to_error_result
  failure_result r =
      to_error_result decode decode_problem encode decimal r.body r.content_type r.status
        transforms.error

  abbrev pub checked : Option (Validator Req Input) → Option Input → Response → Option Text
  checked none input r = none
  checked (some v) none r = none
  checked (some v) (some input) r = v.check_response input r

  -- the error of a response that is checked, if there is one
  unfoldable pub response_error : Option Input → Response → Option Text
  response_error input r =
      if entry.validation.validate_response then checked entry.validator input r else none

  abbrev pub success_or_invalid : Response → Option Text → ToolResult
  success_or_invalid r none = success_result r
  success_or_invalid r (some e) =
      if entry.validation.response_validation_failure == codes "fail"
      then error_text (codes "response validation failed: " ++ e)
      else success_result r

  -- the result by whether the status is one of success and one of error
  abbrev pub choose : Bool → Bool → Response → Option Text → ToolResult
  choose in_success true r e = failure_result r
  choose true false r e = success_or_invalid r e
  choose false false r e = error_text (codes "unexpected HTTP " ++ decimal r.status)

  -- the result of a response that was read
  unfoldable pub result_of : Option Input → Response → ToolResult
  unfolding success_result failure_result response_error
  result_of input r =
      choose (contains r.status entry.validation.success_status)
        (contains r.status entry.validation.error_status) r (response_error input r)

  abbrev pub dispatched : {W : Type 0} → Option Input → Result Text Response × W → Dispatched × W
  dispatched input (err e, w) = (unsent e, w)
  dispatched input (ok r, w) = (answered (result_of input r) r.status, w)

  -- httpDispatchWithStatus
  unfoldable pub dispatch :
      {W : Type 0} → (Req → W → Result Text Response × W) → Req → Option Input → W → Dispatched × W
  unfolding result_of
  dispatch send req input w = dispatched input (send req w)

  or_raw_succeeds :
      (body : Text) (c : Result ContentError (List Content)) → (or_raw body c).is_error ≡ false
  or_raw_succeeds body (ok contents) = refl
  or_raw_succeeds body (err e) = refl

  success_result_succeeds : (r : Response) → (success_result r).is_error ≡ false
  unfolding success_result
  success_result_succeeds r = or_raw_succeeds r.body _

  failure_result_fails : (r : Response) → (failure_result r).is_error ≡ true
  unfolding failure_result to_error_result
  failure_result_fails r = refl

  abbrev Passes : Option Text → Type 0
  Passes e = (e ≡ none) ⊎ ((entry.validation.response_validation_failure == codes "fail") ≡ false)

  success_or_invalid_iff :
      (r : Response) (e : Option Text) → ((success_or_invalid r e).is_error ≡ false) ↔ Passes e
  success_or_invalid_iff r none = (λ h. inl refl, λ h. success_result_succeeds r)
  success_or_invalid_iff r (some e) =
      elim (Bool-cases (entry.validation.response_validation_failure == codes "fail")) [
        | inl fails ↦
            simp fails
              (λ h. absurd cc, λ p. elim p [ inl gone ↦ absurd cc | inr passes ↦ absurd cc ])
        | inr passes ↦ simp passes (λ h. inr refl, λ p. success_result_succeeds r)
      ]

  choose_iff :
      (in_success in_error : Bool) (r : Response) (e : Option Text)
      → ((choose in_success in_error r e).is_error ≡ false)
        ↔ ((in_success ≡ true) × (in_error ≡ false) × Passes e)
  choose_iff in_success true r e =
      (λ h. absurd (let f = sym (failure_result_fails r) ∙ h in cc), λ (a, b, p). absurd cc)
  choose_iff true false r e =
      let meaning = success_or_invalid_iff r e in
      (λ h. (refl, refl, meaning.0 h), λ (a, b, p). meaning.1 p)
  choose_iff false false r e = (λ h. absurd cc, λ (a, b, p). absurd cc)

  -- A response's result is no error exactly if its status counts as a success and not as an error,
  -- and no check of the response fails that is to fail the call.
  pub result_of_iff :
      (input : Option Input) (r : Response)
      → ((result_of input r).is_error ≡ false) ↔ (
          (contains r.status entry.validation.success_status ≡ true)
          × (contains r.status entry.validation.error_status ≡ false)
          × ((response_error input r ≡ none)
              ⊎ ((entry.validation.response_validation_failure == codes "fail") ≡ false)))
  unfolding result_of
  result_of_iff input r =
      choose_iff (contains r.status entry.validation.success_status)
        (contains r.status entry.validation.error_status) r (response_error input r)

  -- a dispatch sends its request, and nothing else
  pub dispatched_world :
      {W : Type 0} (send : Req → W → Result Text Response × W) (req : Req) (input : Option Input)
      (w : W)
      → (dispatch send req input w).1 ≡ (send req w).1
  unfolding dispatch
  dispatched_world {W} send req input w = of_response (send req w)
    where
      of_response : (r : Result Text Response × W) → (dispatched input r).1 ≡ r.1
      of_response (err e, v) = refl
      of_response (ok r, v) = refl

-- ===== src/Inbound/Gate.antt =====
-- pkg/auth/inbound/middleware.go: ValidatorMiddleware and DispatchMiddleware, with the manager that
-- tells them which tools are public. `next` is the handler behind them; it gets the TokenInfo that
-- the context carries, if there is one.
use go_auto_mcp.Prelude.{
  Bool, false, Option, none, some, [], ◌≡◌, refl, sym, ◌∙◌, ap, String, string_eq, Text, codes,
  text_eq, ◌==◌, Result, err, ok, Dict, lookup, if◌then◌else◌, Bool-cases, Option-cases, inl, inr,
}
use mathlib.Core.Path.{subst}
use go_auto_mcp.Inbound.{TokenInfo, AuthError, Validator, Request, Response, served}
use go_auto_mcp.Inbound.Peek.{
  request_token, write_unauthorized, write_error, peek, tool_name, write_error_ends,
  write_unauthorized_ends,
}

-- a TokenValidator with the header that it reads, which is empty for bearer tokens
pub record Guard (W : Type 0) : Type 0 where
  pub validator : Validator W
  pub api_key_header : Text

module _ {W X : Type 0} (next : Option TokenInfo → Request → W → X × W) where
  abbrev pub serve : Option TokenInfo → Request → W → Response X × W
  serve info r w = let (x, w') = next info r w in (served x, w')

  abbrev pub validated : Request → Result AuthError TokenInfo × W → Response X × W
  validated r (err e, w) = (write_error r e, w)
  validated r (ok info, w) = serve (some info) r w

  -- ValidatorMiddleware
  unfoldable pub validator_middleware : Guard W → Request → W → Response X × W
  unfolding request_token write_unauthorized
  validator_middleware g r w =
      let token = request_token g.api_key_header r in
      if token == []
      then (write_unauthorized r (codes "missing_token"), w)
      else validated r (g.validator.validate token w)

  served-injective :
      (p : X × W) {x : X} {w : W}
      → (let r : Response X × W = (served p.0, p.1) in r) ≡ (served x, w)
      → p ≡ (x, w)
  served-injective (y, v) {x} {w} h =
      let first : served y ≡ served x = ap (λ q. q.0) h in
      let second : v ≡ w = ap (λ q. q.1) h in cc

  module _ (parse : Text → Option (String × String)) (global : Guard W)
      (overrides : Dict String (Guard W)) (needs_auth : String → Bool)
      (upstream_lookup : Option (String → String)) where
    abbrev pub or_global : Option (Guard W) → Guard W
    or_global none = global
    or_global (some g) = g

    -- the guard for a tool name, which is empty unless the request calls a tool
    unfoldable pub guard_for : String → Guard W
    guard_for tool = elim upstream_lookup [
      | none ↦ global
      | some upstream_of ↦
          if tool == "" then global else or_global (lookup (upstream_of tool) overrides)
    ]

    abbrev pub gate : Option String → Request → W → Response X × W
    gate none r w = validator_middleware (guard_for "") r w
    gate (some tool) r w =
        if needs_auth tool then validator_middleware (guard_for tool) r w else serve none r w

    -- DispatchMiddleware
    unfoldable pub dispatch_middleware : Request → W → Response X × W
    unfolding peek guard_for
    dispatch_middleware r w =
        let peeked = peek parse r.body in gate peeked.tool (record r { body = peeked.restored }) w

    -- the request with the body that was read
    abbrev pub readable : Request → Request
    readable r = record r { body = (peek parse r.body).restored }

    -- The ways in which the next handler is reached: by a call of a tool that needs no
    -- authentication, or with a token that the guard for the tool has validated.
    pub data Passed (r : Request) (w : W) : X × W → Type 0 where
      as_public :
          (tool : String)
          → (peek parse r.body).tool ≡ some tool
          → needs_auth tool ≡ false
          → Passed r w (next none (readable r) w)
      as_user :
          (tool : String) (info : TokenInfo) (w' : W)
          → tool_name (peek parse r.body).tool ≡ tool
          → (request_token (guard_for tool).api_key_header r == []) ≡ false
          → (guard_for tool).validator.validate (request_token (guard_for tool).api_key_header r) w
            ≡ (ok info, w')
          → Passed r w (next (some info) (readable r) w')

    validated-Passed :
        (r : Request) (w : W) (tool : String)
        → tool_name (peek parse r.body).tool ≡ tool
        → (request_token (guard_for tool).api_key_header r == []) ≡ false
        → (answer : Result AuthError TokenInfo × W)
        → (guard_for tool).validator.validate (request_token (guard_for tool).api_key_header r) w
          ≡ answer
        → (x : X) (w' : W) → validated (readable r) answer ≡ (served x, w')
        → Passed r w (x, w')
    validated-Passed r w tool called given (err failure, v) h x w' e =
        absurd (write_error_ends (readable r) failure x (ap (λ p. p.0) e))
    validated-Passed r w tool called given (ok info, v) h x w' e =
        let f : next (some info) (readable r) v ≡ (x, w') =
          served-injective (next (some info) (readable r) v) e in
        subst (Passed r w) f (as_user tool info v called given h)

    guarded-Passed :
        (r : Request) (w : W) (tool : String)
        → tool_name (peek parse r.body).tool ≡ tool
        → (x : X) (w' : W) → validator_middleware (guard_for tool) (readable r) w ≡ (served x, w')
        → Passed r w (x, w')
    unfolding validator_middleware write_unauthorized
    guarded-Passed r w tool called x w' e =
        elim (Bool-cases (request_token (guard_for tool).api_key_header r == [])) [
          | inl missing ↦
              let f : (write_unauthorized (readable r) (codes "missing_token"), w)
                  ≡ (served x, w') =
                sym (simp (missing, validator_middleware)) ∙ e in
              absurd
                (write_unauthorized_ends (readable r) (codes "missing_token") x (ap (λ p. p.0) f))
          | inr given ↦
              let token = request_token (guard_for tool).api_key_header r in
              validated-Passed r w tool called given ((guard_for tool).validator.validate token w)
                refl x w' (sym (simp (given, validator_middleware)) ∙ e)
        ]

    -- The next handler is reached only by a call of a tool that needs no authentication, or with a
    -- token that the guard for the called tool has validated; it gets the body that was looked at.
    pub dispatch_middleware-Passed :
        (r : Request) (w : W) (x : X) (w' : W)
        → dispatch_middleware r w ≡ (served x, w')
        → Passed r w (x, w')
    unfolding dispatch_middleware
    dispatch_middleware-Passed r w x w' e = elim (Option-cases (peek parse r.body).tool) [
      | inl none_called ↦
          guarded-Passed r w "" (ap tool_name none_called) x w'
            (sym (simp (none_called, dispatch_middleware)) ∙ e)
      | inr (tool, called) ↦ elim (Bool-cases (needs_auth tool)) [
        | inl needed ↦
            guarded-Passed r w tool (ap tool_name called) x w'
              (sym (simp (called, needed, dispatch_middleware)) ∙ e)
        | inr public ↦
            let f : serve none (readable r) w ≡ (served x, w') =
              sym (simp (called, public, dispatch_middleware)) ∙ e in
            subst (Passed r w) (served-injective (next none (readable r) w) f)
              (as_public tool called public)
      ]
    ]

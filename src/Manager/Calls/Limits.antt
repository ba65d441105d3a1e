-- ===== src/Manager/Calls/Limits.antt =====
-- pkg/mcp/manager.go, checkRateLimit and rateLimitKey, and the handler that asks them first.
use mathlib.Core.Path.{subst}
use go_auto_mcp.Prelude.{
  ℕ, String, ◌≡◌, refl, sym, ◌∙◌, Bool, true, false, Option, none, some, string_eq, ◌==◌, Dict,
  lookup, ◌↔◌, inl, inr, Option-cases, Bool-cases, if◌then◌else◌, arith,
}
use go_auto_mcp.Manager.{concat}
use go_auto_mcp.Manager.Calls.{CallResult, Reply, returned, failed, error_result, Context, or_blank}

-- `if part == "" { part = other }`
abbrev pub or_default : String → String → String
or_default other part = if part == "" then other else part

-- the source criterion and what it makes of the call
unfoldable pub key_part : Context → String → String → String
key_part ctx source session_id =
    if source == "user"
    then (if or_blank ctx.subject == ""
        then or_default "anonymous" ctx.client_ip
        else or_blank ctx.subject)
    else if source == "ip"
    then or_default "unknown" ctx.client_ip
    else if source == "session"
    then or_default "unknown" session_id
    else "unknown"

unfoldable pub rate_limit_key : Context → String → String → String → String
unfolding key_part concat
rate_limit_key ctx source limit_name session_id =
    concat limit_name (concat ":" (concat source (concat ":" (key_part ctx source session_id))))

-- what Enforcer.Allow answers
pub data Verdict : Type 0 where
  allowed : Verdict
  reached : ℕ → ℕ → Verdict
  broken : Verdict

-- `enforcer` is there if rate limits are configured; the sources are those of the named limits.
pub record Limits : Type 0 where
  pub enforcer : Bool
  pub sources : Dict String String

module _ {L : Type 0} (allow : String → String → L → Verdict × L)
    (text : String → ℕ → ℕ → String) where
  -- the result that refuses the call, if there is one
  abbrev pub verdict_result : String → Verdict → Option CallResult
  verdict_result limit_name allowed = none
  verdict_result limit_name broken = none
  verdict_result limit_name (reached remaining reset) =
      some (error_result (text limit_name remaining reset))

  unfoldable pub check_rate_limit : Limits → Context → String → String → L → Option CallResult × L
  unfolding rate_limit_key
  check_rate_limit limits ctx limit_name session_id l = elim limits.enforcer [
    | false ↦ (none, l)
    | true ↦ elim (lookup limit_name limits.sources) [
      | none ↦ (none, l)
      | some source ↦
          let (verdict, l') =
            allow limit_name (rate_limit_key ctx source limit_name session_id) l in
          (verdict_result limit_name verdict, l')
    ]
  ]

  -- The closure of applyRegistryLocked: `rl_name` is the rate limit it captured, `parse` is
  -- managerParseArguments on the request's arguments, and `go` dispatches the parsed ones.
  pub handle_call :
      {A X : Type 0}
      → Limits
      → Context
      → String
      → String
      → Option A
      → (A → X → Reply × X)
      → L
      → X
      → Reply × L × X
  unfolding check_rate_limit
  handle_call limits ctx rl_name session_id parsed go l x =
      let (refusal, l') =
        if rl_name == "" then (none, l) else check_rate_limit limits ctx rl_name session_id l in
      elim refusal [
        | some result ↦ (returned result, l', x)
        | none ↦ elim parsed [
          | none ↦ (failed "parsing tool arguments", l', x)
          | some args ↦ let (reply, x') = go args x in (reply, l', x')
        ]
      ]

  abbrev AllowedBy : String → Verdict → CallResult → Type 0
  AllowedBy limit_name verdict result =
      (remaining : ℕ) × (reset : ℕ) × (verdict ≡ reached remaining reset)
      × (error_result (text limit_name remaining reset) ≡ result)

  verdict_result_iff :
      (limit_name : String) (verdict : Verdict) (result : CallResult)
      → (verdict_result limit_name verdict ≡ some result) ↔ AllowedBy limit_name verdict result
  verdict_result_iff limit_name allowed result = (λ h. absurd cc, λ (a, b, h, k). absurd cc)
  verdict_result_iff limit_name broken result = (λ h. absurd cc, λ (a, b, h, k). absurd cc)
  verdict_result_iff limit_name (reached remaining reset) result =
      (λ h. (remaining, reset, refl, cc), λ (a, b, h, k). cc)

  -- A check refuses a call exactly if there is an enforcer, the limit is configured, and the
  -- enforcer says that the limit is reached for the key; an error of the enforcer lets it pass.
  pub check_rate_limit_iff :
      (limits : Limits) (ctx : Context) (limit_name session_id : String) (l : L)
      (result : CallResult)
      → ((check_rate_limit limits ctx limit_name session_id l).0 ≡ some result) ↔ (
          (source : String) × (limits.enforcer ≡ true)
          × (lookup limit_name limits.sources ≡ some source)
          × (remaining : ℕ) × (reset : ℕ) × ((allow limit_name
                (rate_limit_key ctx source limit_name session_id)
                l).0
              ≡ reached remaining reset)
          × (error_result (text limit_name remaining reset) ≡ result))
  unfolding check_rate_limit
  check_rate_limit_iff limits ctx limit_name session_id l result =
      let check = check_rate_limit limits ctx limit_name session_id l in
      elim (Bool-cases limits.enforcer) [
        | inr off ↦
            let e : check.0 ≡ none = simp (off, check_rate_limit) in
            (λ h. absurd cc, λ (s, there, b, d, f, g, k). absurd cc)
        | inl on ↦ elim (Option-cases (lookup limit_name limits.sources)) [
          | inl unknown ↦
              let e : check.0 ≡ none = simp (on, unknown, check_rate_limit) in
              (λ h. absurd cc, λ (s, there, known, d, f, g, k). absurd cc)
          | inr (source, known) ↦
              let answer : String → Verdict =
                λ s. (allow limit_name (rate_limit_key ctx s limit_name session_id) l).0 in
              let e : check.0 ≡ verdict_result limit_name (answer source) =
                simp (on, known, check_rate_limit) in
              let meaning = verdict_result_iff limit_name (answer source) result in
              (
                λ h. let (d, f, g, k) = meaning.0 (sym e ∙ h) in (source, on, known, d, f, g, k),
                λ (s, there, found, more, d, f, g).
                    let same : s ≡ source = cc in
                    e
                    ∙ meaning.1
                        (subst (λ k. AllowedBy limit_name (answer k) result) same (more, d, f, g)),
              )
        ]
      ]

  -- A call that is refused has done nothing else: its arguments are not looked at, and the world
  -- and the cache are as they were.
  pub handle_call_limited :
      {A X : Type 0} (limits : Limits) (ctx : Context) (rl_name session_id : String)
      (parsed : Option A) (go : A → X → Reply × X) (l : L) (x : X) (result : CallResult)
      → (rl_name == "") ≡ false
      → (check_rate_limit limits ctx rl_name session_id l).0 ≡ some result
      → ((handle_call limits ctx rl_name session_id parsed go l x).0 ≡ returned result)
        × ((handle_call limits ctx rl_name session_id parsed go l x).2 ≡ x)
  unfolding handle_call
  handle_call_limited limits ctx rl_name session_id parsed go l x result named h =
      simp (named, h, handle_call) (refl, refl)

concat-injective : (s t t' : String) → concat s t ≡ concat s t' → t ≡ t'
unfolding concat
concat-injective String.[] t t' h = h
concat-injective (String.◌∷◌ c s) t t' h = concat-injective s t t' cc

-- Under the criterion "user", two calls with subjects share a counter of a limit only if the
-- subjects are the same, whatever their addresses and sessions.
pub rate_limit_key_user :
    (ctx ctx' : Context) (limit_name session_id session_id' : String)
    → (or_blank ctx.subject == "") ≡ false
    → (or_blank ctx'.subject == "") ≡ false
    → rate_limit_key ctx "user" limit_name session_id
      ≡ rate_limit_key ctx' "user" limit_name session_id'
    → or_blank ctx.subject ≡ or_blank ctx'.subject
unfolding rate_limit_key
rate_limit_key_user ctx ctx' limit_name session_id session_id' some_subject some_subject' h =
    let parts = concat-injective ":" _ _ (
      concat-injective "user" _ _ (concat-injective ":" _ _ (concat-injective limit_name _ _ h))) in
    ground (arith, parts)

-- ===== src/Inbound/Waived.antt =====
-- pkg/auth/inbound with pkg/mcp/manager.go: requests without credentials, where the manager says which
-- tools are public.
use go_auto_mcp.Prelude.{
  true, false, Option, some, [], ◌∷◌, ◌≡◌, sym, ◌∙◌, String, string_eq, Text, text_eq, ◌==◌, Dict,
  lookup, All, Bool-cases, Option-cases, inl, inr,
}
use go_auto_mcp.Upstreams.Registry.{Entry, Registry}
use go_auto_mcp.Upstreams.Registry.Calls.{entry_for_tool}
use go_auto_mcp.Manager.Views.{tool_needs_auth, auth_waived_iff}
use go_auto_mcp.Inbound.{TokenInfo, Request, served}
use go_auto_mcp.Inbound.Peek.{request_token, peek}
use go_auto_mcp.Inbound.Gate.{
  guard_for, Guard, or_global, dispatch_middleware, Passed, as_public, as_user,
  dispatch_middleware-Passed,
}

module _ (parse : Text → Option (String × String)) (loaded : Option Registry) where
  -- a call of a tool of the loaded registry whose entry waives authentication
  pub record WaivedCall (r : Request) : Type 0 where
    pub tool : String
    pub registry : Registry
    pub entry : Entry
    pub called : (peek parse r.body).tool ≡ some tool
    pub is_loaded : loaded ≡ some registry
    pub found : entry_for_tool registry tool ≡ some entry
    pub waived : entry.auth_required ≡ false

module _ {W : Type 0} (r : Request) where
  -- the request has no token for a guard: nothing is in the header that the guard reads
  abbrev pub Bare : Guard W → Type 0
  Bare g = (request_token g.api_key_header r == []) ≡ true

  -- the same for every override
  abbrev pub AllBare : Dict String (Guard W) → Type 0
  AllBare = All (λ p. Bare p.1)

module _ {W X : Type 0} (next : Option TokenInfo → Request → W → X × W)
    (parse : Text → Option (String × String)) (global : Guard W) (overrides : Dict String (Guard W))
    (loaded : Option Registry) (upstream_lookup : Option (String → String)) where
  -- the guard of any tool is the global one or an override
  or_global-Bare :
      (r : Request) (name : String) (guards : Dict String (Guard W))
      → Bare r global
      → AllBare r guards
      → Bare r (
          or_global next parse global overrides
            (tool_needs_auth loaded)
            upstream_lookup
            (lookup name guards))
  unfolding lookup
  or_global-Bare r name [] bare all = bare
  or_global-Bare r name ((key, g) ∷ guards) bare (here, all) = elim (Bool-cases (key == name)) [
    | inl same ↦ rw same here
    | inr other ↦ rw other (or_global-Bare r name guards bare all)
  ]

  guard_for-Bare :
      (r : Request) (tool : String)
      → Bare r global
      → AllBare r overrides
      → Bare r (guard_for next parse global overrides (tool_needs_auth loaded) upstream_lookup tool)
  unfolding guard_for
  guard_for-Bare r tool bare all = elim (Option-cases upstream_lookup) [
    | inl missing ↦ rw (missing, guard_for) bare
    | inr (upstream_of, there) ↦ elim (Bool-cases (tool == "")) [
      | inl blank ↦ rw (there, guard_for) (rw blank bare)
      | inr named ↦
          rw (there, guard_for) (rw named (or_global-Bare r (upstream_of tool) overrides bare all))
    ]
  ]

  Passed-WaivedCall :
      (r : Request) (w : W) {out : X × W}
      → Bare r global
      → AllBare r overrides
      → Passed next parse global overrides (tool_needs_auth loaded) upstream_lookup r w out
      → WaivedCall parse loaded r
  Passed-WaivedCall r w bare all (as_public tool called open_to_all) =
      let (registry, entry, there, found, waived) = (auth_waived_iff loaded tool).0 open_to_all in
      record {
        tool = tool;
        registry = registry;
        entry = entry;
        called = called;
        is_loaded = there;
        found = found;
        waived = waived;
      }
  Passed-WaivedCall r w bare all (as_user tool info w' called given h) =
      absurd (let e : true ≡ false = sym (guard_for-Bare r tool bare all) ∙ given in cc)

  -- A request that has no token for the global guard, nor for any override of an upstream, in the
  -- header that the guard reads, reaches the next handler only as a call of a tool of the loaded
  -- registry whose entry waives authentication.
  pub dispatch_middleware-WaivedCall :
      (r : Request) (w : W) (x : X) (w' : W)
      → Bare r global
      → AllBare r overrides
      → dispatch_middleware next parse global overrides (tool_needs_auth loaded) upstream_lookup r w
        ≡ (served x, w')
      → WaivedCall parse loaded r
  dispatch_middleware-WaivedCall r w x w' bare all h = Passed-WaivedCall r w bare all (
      dispatch_middleware-Passed next parse global overrides (tool_needs_auth loaded)
        upstream_lookup r w x w' h)

-- ===== src/Manager/Views.antt =====
-- pkg/mcp/manager.go, AuthRequired, ToolUpstreamName and listToolsMiddleware: what the manager tells
-- the inbound authentication and a client that lists tools.
mod Tests
use go_auto_mcp.Prelude.{
  String, ◌≡◌, refl, ◌↔◌, Bool, true, false, Option, none, some, List, [], ◌∷◌, string_eq, ◌==◌,
  Dict, lookup, Option-cases, inl, inr, if◌then◌else◌, sym, ap, ◌∙◌,
}
use go_auto_mcp.Upstreams.Registry.{Entry, Tool, Registry}
use go_auto_mcp.Upstreams.Registry.Calls.{auth_required, tool_upstream_name, entry_for_tool}

-- true, the conservative default, before a registry is loaded
unfoldable pub tool_needs_auth : Option Registry → String → Bool
unfolding auth_required
tool_needs_auth none tool = true
tool_needs_auth (some r) tool = auth_required r tool

pub upstream_of_tool : Option Registry → String → Option String
unfolding tool_upstream_name
upstream_of_tool none tool = some ""
upstream_of_tool (some r) tool = tool_upstream_name r tool

-- The middleware of one endpoint: the tools it answers with itself, or `next`.
pub list_tools : {X : Type 0} → Dict String Tool → String → String → (List Tool → X) → X → X
list_tools search_tools endpoint method answer next =
    if method == "tools/list"
    then elim (lookup endpoint search_tools) [ none ↦ next | some tool ↦ answer (tool ∷ []) ]
    else next

registry-injective : {r s : Registry} → some r ≡ some s → r ≡ s
registry-injective h = cc

entry-injective : {d e : Entry} → some d ≡ some e → d ≡ e
entry-injective h = cc

-- Authentication is waived exactly for a tool of the loaded registry whose entry waives it; in
-- particular not for an unknown tool, nor before a registry is loaded.
pub auth_waived_iff :
    (loaded : Option Registry) (tool : String)
    → (tool_needs_auth loaded tool ≡ false) ↔ (
        (r : Registry) × (e : Entry) × (loaded ≡ some r)
        × (entry_for_tool r tool ≡ some e)
        × (e.auth_required ≡ false))
unfolding tool_needs_auth entry_for_tool auth_required
auth_waived_iff none tool = (λ h. absurd cc, λ (r, e, h, k, l). absurd cc)
auth_waived_iff (some r) tool = elim (Option-cases (lookup tool r.by_prefixed_name)) [
  | inl unknown ↦
      let conservative : auth_required r tool ≡ true = simp (unknown, auth_required) in
      (
        λ h. absurd cc,
        λ (r', e, h, k, l).
            let same = ap (λ x. lookup tool x.by_prefixed_name) (registry-injective h) in
            absurd (let clash = sym unknown ∙ (same ∙ k) in cc),
      )
  | inr (e, there) ↦
      let told : auth_required r tool ≡ e.auth_required = simp (there, auth_required) in
      (
        λ h. (r, e, refl, there, sym told ∙ h),
        λ (r', e', h, k, l).
            let same = ap (λ x. lookup tool x.by_prefixed_name) (registry-injective h) in
            let both : e ≡ e' = entry-injective (sym there ∙ (same ∙ k)) in
            told ∙ (ap (λ x. x.auth_required) both ∙ l),
      )
]

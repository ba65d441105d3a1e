-- ===== src/Operator/Discovered.antt =====
-- pkg/operator/controller/annotations.go and pkg/operator/configgen together: an annotated Service
-- never makes the generation of the configuration fail.
use mathlib.Core.Path.{subst}
use go_auto_mcp.Prelude.{
  Bool, true, false, Option, some, List, [], ◌∷◌, ◌++◌, map, ap, keep, err, Result-cases, ◌≡◌, refl,
  sym, ◌∙◌, Text, codes, text_eq, ◌==◌, nat_eq, ℤ, Result, ok, >>=-eq-ok, ok-injective, err-ne-ok,
  if◌then◌else◌, Bool-cases, inl, inr, or_fail, text_beq,
}
use go_auto_mcp.Operator.{KeyRef, OpenApiSpec, Upstream, Service, value_at}
use go_auto_mcp.Operator.Annotations.{
  openapi_choice, source_count, no_source, openapi_of_service, config_map_source, described,
  read_service, no_source, source_count, cluster_url, service_to_upstream, openapi_source,
  parse_config_map_ref, resolve_service_port, overlay_source, tool_prefix_key,
  overlay_config_map_key, no_tool_prefix, AnnotationError, bad_config_map_ref, no_single_source,
}
use go_auto_mcp.Operator.Discovery.{synthetic}
use go_auto_mcp.Operator.Generator.{
  http_entry, upstream_configs, base_config, upstream_config, http_config, openapi_of, base_url_of,
  GeneratedUpstream, file_name,
}

abbrev made : OpenApiSpec → Result AnnotationError OpenApiSpec
made openapi = ok openapi

abbrev Taken : Upstream → Text → OpenApiSpec → Type 0
Taken up base openapi = (source : Text) × (openapi_of up base openapi ≡ ok source)

-- a source that is there is one that the generator takes, whatever the base URL
openapi_choice-ok :
    (url config_map path : Text) (openapi : OpenApiSpec)
    → openapi_choice url config_map path ≡ ok openapi
    → (up : Upstream) (base : Text) → Taken up base openapi
unfolding openapi_choice config_map_source openapi_of text_beq
openapi_choice-ok url config_map path openapi h up base = elim (Bool-cases (url == [])) [
  | inr given ↦
      let e : made (record no_source { url = url }) ≡ made openapi =
        sym (simp (given, openapi_choice)) ∙ h in
      subst (Taken up base) (ok-injective e) (url, simp (given, openapi_of))
  | inl no_url ↦ elim (Bool-cases (config_map == [])) [
    | inr given ↦
        let chain : config_map_source config_map ≡ ok openapi =
          sym (simp (no_url, given, openapi_choice)) ∙ h in
        let (ref, found, e) =
          >>=-eq-ok (or_fail bad_config_map_ref (parse_config_map_ref config_map)) _ chain in
        subst (Taken up base) (ok-injective e) (codes "/etc/mcp-auto/specs/" ++ file_name up, refl)
    | inl no_map ↦
        let e : made (record no_source { auto_discover = some path }) ≡ made openapi =
          sym (simp (no_url, no_map, openapi_choice)) ∙ h in
        subst (Taken up base) (ok-injective e)
          (base ++ (if path == [] then codes "/openapi.json" else path), refl)
  ]
]

openapi_source-ok :
    (url config_map path : Text) (openapi : OpenApiSpec)
    → openapi_source url config_map path ≡ ok openapi
    → (up : Upstream) (base : Text) → Taken up base openapi
unfolding openapi_source
openapi_source-ok url config_map path openapi h up base =
    elim (Bool-cases (source_count url config_map path == 1)) [
      | inr other ↦
          absurd (err-ne-ok {e = no_single_source} (sym (simp (other, openapi_source)) ∙ h))
      | inl one ↦
          openapi_choice-ok url config_map path openapi (sym (simp (one, openapi_source)) ∙ h) up
            base
    ]

abbrev pub is_ok : {E A : Type 0} → Result E A → Bool
is_ok (err e) = false
is_ok (ok a) = true

module _ (decimal : ℤ → Text) where
  abbrev Entered : Text → Upstream → Type 0
  Entered prefix up =
      (c : GeneratedUpstream) × (upstream_config decimal up ≡ ok c) × (c.tool_prefix ≡ prefix)

  described-Entered :
      (svc : Service) (port : ℤ) (openapi : OpenApiSpec) (overlay : Option (Option KeyRef))
      → ((up : Upstream) (base : Text) → Taken up base openapi)
      → Entered
          (value_at tool_prefix_key svc.annotations)
          (described decimal svc port openapi overlay)
  unfolding described upstream_config http_config base_url_of cluster_url http_entry base_config
      text_beq
  described-Entered svc port openapi overlay takes =
      let up = described decimal svc port openapi overlay in
      let (source, e) = takes up up.spec.base_url in
      (http_entry up up.spec.base_url source, rw e refl, refl)

  -- The upstream that an annotated Service stands for always gets a configuration, with the prefix
  -- that the annotation names.
  pub service_to_upstream-config :
      (svc : Service) (up : Upstream)
      → service_to_upstream decimal svc ≡ ok up
      → (c : GeneratedUpstream) × (upstream_config decimal up ≡ ok c)
        × (c.tool_prefix ≡ value_at tool_prefix_key svc.annotations)
  unfolding service_to_upstream read_service upstream_config http_config base_url_of cluster_url
  service_to_upstream-config svc up h =
      elim (Bool-cases (value_at tool_prefix_key svc.annotations == [])) [
        | inl missing ↦
            absurd (err-ne-ok {e = no_tool_prefix} (sym (simp (missing, service_to_upstream)) ∙ h))
        | inr named ↦
            let chain : read_service decimal svc ≡ ok up =
              sym (simp (named, service_to_upstream)) ∙ h in
            let (port, h_port, h1) = >>=-eq-ok (resolve_service_port svc) _ chain in
            let (openapi, h_openapi, h2) = >>=-eq-ok (openapi_of_service decimal svc) _ h1 in
            let (overlay, h_overlay, h3) =
              >>=-eq-ok (overlay_source (value_at overlay_config_map_key svc.annotations)) _ h2 in
            subst (Entered (value_at tool_prefix_key svc.annotations)) (ok-injective h3) (
              described-Entered svc port openapi overlay
                (openapi_source-ok _ _ _ openapi h_openapi))
      ]

  -- whether a Service's annotations stand for an upstream
  abbrev pub usable : Service → Bool
  usable svc = is_ok (service_to_upstream decimal svc)

  abbrev pub annotated_prefix : Service → Text
  annotated_prefix svc = value_at tool_prefix_key svc.annotations

  abbrev AllEntered : List Text → List Upstream → Type 0
  AllEntered prefixes ups =
      (ds : List GeneratedUpstream) × (upstream_configs decimal ups ≡ ok ds)
      × (map (λ d. d.tool_prefix) ds ≡ prefixes)

  synthetic-Entered :
      (svcs : List Service)
      → AllEntered (map annotated_prefix (keep usable svcs)) (synthetic decimal svcs)
  unfolding synthetic upstream_configs
  synthetic-Entered [] = ([], refl, refl)
  synthetic-Entered (svc ∷ svcs) =
      let (ds, generated, prefixes) = synthetic-Entered svcs in
      elim (Result-cases (service_to_upstream decimal svc)) [
        | inl (e, skipped) ↦ rw skipped (ds, generated, prefixes)
        | inr (up, made_up) ↦
            let (c, here, prefix) = service_to_upstream-config svc up made_up in
            rw made_up (rw here (rw generated (c ∷ ds, refl, λ i. prefix i ∷ prefixes i)))
      ]

  upstream_configs-append :
      (ups more : List Upstream) (cs ds : List GeneratedUpstream)
      → upstream_configs decimal ups ≡ ok cs
      → upstream_configs decimal more ≡ ok ds
      → upstream_configs decimal (ups ++ more) ≡ ok (cs ++ ds)
  unfolding upstream_configs
  upstream_configs-append [] more cs ds h k = k ∙ ap (λ t. ok (t ++ ds)) (ok-injective h)
  upstream_configs-append (up ∷ ups) more cs ds h k =
      let (c, here, h1) = >>=-eq-ok (upstream_config decimal up) _ h in
      let (rest, there, h2) = >>=-eq-ok (upstream_configs decimal ups) _ h1 in
      rw here (
        rw (upstream_configs-append ups more rest ds there k)
          (ap (λ t. ok (t ++ ds)) (ok-injective h2)))

  -- Where the upstreams of a proxy have configurations, so do they with those of annotated Services
  -- behind them: after the upstreams' own there is one for each Service whose annotations stand for
  -- an upstream, with the prefix that its annotation names.
  pub upstream_configs-synthetic :
      (ups : List Upstream) (cs : List GeneratedUpstream) (svcs : List Service)
      → upstream_configs decimal ups ≡ ok cs
      → (ds : List GeneratedUpstream) × (upstream_configs decimal (ups ++ synthetic decimal svcs)
          ≡ ok (cs ++ ds))
        × (map (λ d. d.tool_prefix) ds ≡ map annotated_prefix (keep usable svcs))
  upstream_configs-synthetic ups cs svcs h =
      let (ds, generated, prefixes) = synthetic-Entered svcs in
      (ds, upstream_configs-append ups (synthetic decimal svcs) cs ds h generated, prefixes)

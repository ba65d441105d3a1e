-- ===== src/Operator/Prefixes.antt =====
-- pkg/operator/controller/mcpproxy_controller.go, detectPrefixConflicts: prefixes that two upstreams
-- claim. A conflict keeps what its description is written from.
use mathlib.Core.Path.{subst}
use go_auto_mcp.Prelude.{
  true, false, none, some, List, [], ◌∷◌, ◌++◌, ◌≡◌, refl, sym, ◌∙◌, ◌↔◌, Text, codes, text_eq,
  text_beq_iff, ◌==◌, if◌then◌else◌, Dict, lookup, insert, lookup-insert, arith, Bool-cases,
  Option-cases, inl, inr, contains, Distinct, All,
}
use go_auto_mcp.Operator.{Upstream}

-- sourceInfo: the id of an upstream and where it comes from
pub record SourceInfo : Type 0 where
  pub id : Text
  pub source : Text

pub record Conflict : Type 0 where
  pub tool_prefix : Text
  pub existing : SourceInfo
  pub claimed : SourceInfo

abbrev pub info_of : Text → Upstream → SourceInfo
info_of source up = record { id = up.namespace ++ (codes "/" ++ up.name); source = source }

-- the upstreams in the order in which they are recorded, with their source
abbrev pub tagged : Text → List Upstream → List (Text × Text × Upstream)
tagged source [] = []
tagged source (up ∷ ups) = (up.spec.tool_prefix, source, up) ∷ tagged source ups

-- the calls of the closure `record`, with the map `seen`
unfoldable pub record_prefixes :
    Dict Text SourceInfo → List (Text × Text × Upstream) → List Conflict
record_prefixes seen [] = []
record_prefixes seen ((key, source, up) ∷ ups) = elim (key == []) [
  | true ↦ record_prefixes seen ups
  | false ↦ elim (lookup key seen) [
    | some existing ↦
        record { tool_prefix = key; existing = existing; claimed = info_of source up }
        ∷ record_prefixes seen ups
    | none ↦ record_prefixes (insert key (info_of source up) seen) ups
  ]
]

-- detectPrefixConflicts
unfoldable pub detect_prefix_conflicts : List Upstream → List Upstream → List Conflict
unfolding record_prefixes
detect_prefix_conflicts crd svc =
    record_prefixes [] (tagged (codes "crd") crd ++ tagged (codes "service") svc)

-- the prefixes that are not blank
abbrev pub claimed_prefixes : List (Text × Text × Upstream) → List Text
claimed_prefixes [] = []
claimed_prefixes ((key, source, up) ∷ ups) =
    let rest = claimed_prefixes ups in if key == [] then rest else key ∷ rest

abbrev Unseen : Dict Text SourceInfo → List Text → Type 0
Unseen seen keys = All (λ k. lookup k seen ≡ none) keys

Unseen-insert :
    (key : Text) (info : SourceInfo) (seen : Dict Text SourceInfo) (keys : List Text)
    → Unseen (insert key info seen) keys ↔ ((contains key keys ≡ false) × Unseen seen keys)
unfolding contains
Unseen-insert key info seen [] = (λ h. (refl, tt), λ h. tt)
Unseen-insert key info seen (k ∷ keys) =
    let rest = Unseen-insert key info seen keys in
    let look = lookup-insert key k info seen in
    let back = text_beq_iff key k in
    let forth = text_beq_iff k key in ground (arith, rest, look, back, forth)

Unseen-empty : (keys : List Text) → Unseen [] keys
unfolding lookup
Unseen-empty [] = tt
Unseen-empty (k ∷ keys) = (refl, Unseen-empty keys)

abbrev Fresh : Dict Text SourceInfo → List Text → Type 0
Fresh seen keys = Distinct keys × Unseen seen keys

record_prefixes_iff :
    (seen : Dict Text SourceInfo) (ups : List (Text × Text × Upstream))
    → (record_prefixes seen ups ≡ [])
      ↔ (Distinct (claimed_prefixes ups) × Unseen seen (claimed_prefixes ups))
unfolding record_prefixes
record_prefixes_iff seen [] = (λ h. (tt, tt), λ h. refl)
record_prefixes_iff seen ((key, source, up) ∷ ups) = elim (Bool-cases (key == [])) [
  | inl blank ↦ simp (blank, record_prefixes) (record_prefixes_iff seen ups)
  | inr claims ↦
      let all = (key, source, up) ∷ ups in
      let keys : claimed_prefixes all ≡ key ∷ claimed_prefixes ups = simp claims in
      elim (Option-cases (lookup key seen)) [
        | inr (existing, there) ↦
            let clash : Conflict = record {
              tool_prefix = key;
              existing = existing;
              claimed = info_of source up;
            } in
            let step : record_prefixes seen all ≡ clash ∷ record_prefixes seen ups =
              simp (claims, there, record_prefixes) in
            (
              λ h. absurd (let e = sym step ∙ h in cc),
              λ both. absurd (
                  let (d, (same, u)) = subst (Fresh seen) keys both in
                  let e : some existing ≡ none = sym there ∙ same in cc),
            )
        | inl fresh ↦
            let next = insert key (info_of source up) seen in
            let step : record_prefixes seen all ≡ record_prefixes next ups =
              simp (claims, fresh, record_prefixes) in
            let rest = record_prefixes_iff next ups in
            let unseen = Unseen-insert key (info_of source up) seen (claimed_prefixes ups) in
            (
              λ h.
                  let (distinct, absent) = rest.0 (sym step ∙ h) in
                  let (once, unclaimed) = unseen.0 absent in
                  subst (Fresh seen) (sym keys) ((once, distinct), (fresh, unclaimed)),
              λ both.
                  let ((once, distinct), (same, unclaimed)) = subst (Fresh seen) keys both in
                  step ∙ rest.1 (distinct, unseen.1 (once, unclaimed)),
            )
      ]
]

-- No conflict is reported exactly if no prefix that is not blank is claimed by two upstreams, of
-- whichever source.
pub detect_prefix_conflicts_iff :
    (crd svc : List Upstream)
    → (detect_prefix_conflicts crd svc ≡ [])
      ↔ Distinct (claimed_prefixes (tagged (codes "crd") crd ++ tagged (codes "service") svc))
unfolding detect_prefix_conflicts
detect_prefix_conflicts_iff crd svc =
    let ups = tagged (codes "crd") crd ++ tagged (codes "service") svc in
    let meaning = record_prefixes_iff [] ups in
    (λ h. (meaning.0 h).0, λ d. meaning.1 (d, Unseen-empty (claimed_prefixes ups)))

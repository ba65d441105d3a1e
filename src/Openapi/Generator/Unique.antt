-- ===== src/Openapi/Generator/Unique.antt =====
-- pkg/openapi/generator.go, GenerateTools: no two tools of an upstream have the same name.
use go_auto_mcp.Prelude.{
  ◌≡◌, refl, sym, ap, ◌∙◌, true, false, List, [], ◌∷◌, map, length, Text, text_eq, pair_eq,
  pair_beq_iff, nat_eq, string_eq, ◌==◌, contains, Distinct, arith, Bool-cases, inl, inr,
}
use mathlib.Core.Path.{subst}
use go_auto_mcp.Naming.Conflicts
use go_auto_mcp.Naming.Conflicts.{PrefixedTool, detect_conflicts}
use go_auto_mcp.Naming.Conflicts.Counting.{names}
use go_auto_mcp.Naming.Conflicts.Outcome.{detect_conflicts-Distinct}
use go_auto_mcp.Naming.Conflicts.Survivors.{Part, Part_all, detect_conflicts-Part}
use go_auto_mcp.Openapi.Generator.{
  UpstreamConfig, NamingConfig, PathItem, GeneratedTool, generated, prefixed_of, tool_key,
  surviving_only, filter_tools, all_tools, generate_tools,
}

abbrev pub places : List GeneratedTool → List (Text × Text)
places [] = []
places (t ∷ ts) = (t.path_template, t.method) ∷ places ts

abbrev pub tool_names : List GeneratedTool → List Text
tool_names [] = []
tool_names (t ∷ ts) = t.prefixed_name ∷ tool_names ts

names-prefixed : (ts : List GeneratedTool) → names (map prefixed_of ts) ≡ tool_names ts
names-prefixed [] = refl
names-prefixed (t ∷ ts) = ap (λ ns. t.prefixed_name ∷ ns) (names-prefixed ts)

length-prefixed : (ts : List GeneratedTool) → length (map prefixed_of ts) ≡ length ts
length-prefixed [] = refl
length-prefixed (t ∷ ts) = omega (arith, length-prefixed ts)

-- a name is listed if a key with it is
contains-key :
    (key : Text × (Text × Text)) (out : List PrefixedTool)
    → contains key (map tool_key out) ≡ true
    → contains key.0 (names out) ≡ true
unfolding contains
contains-key key [] h = absurd cc
contains-key (n, pm) (t ∷ out) h =
    ground (arith, contains-key (n, pm) out, text_eq.beq_iff t.prefixed_name n)

-- among tools with distinct names, a name has one key
one_key :
    (n : Text) (pm pm' : Text × Text) (out : List PrefixedTool)
    → Distinct (names out)
    → contains (n, pm) (map tool_key out) ≡ true
    → contains (n, pm') (map tool_key out) ≡ true
    → pm ≡ pm'
unfolding contains
one_key n pm pm' [] d h h' = absurd cc
one_key n pm pm' (t ∷ out) d h h' = ground (
  arith,
  one_key n pm pm' out d.1,
  contains-key (n, pm) out,
  contains-key (n, pm') out,
  text_eq.beq_iff t.prefixed_name n,
  pair_beq_iff (t.original_path, t.original_method) pm,
  pair_beq_iff (t.original_path, t.original_method) pm',
)

-- a place at which the name has a key that survived
abbrev PlaceOf : Text → List PrefixedTool → List GeneratedTool → Type 0
PlaceOf n out ts =
    (pm : Text × Text) × ((contains pm (places ts) ≡ true)
      × (contains (n, pm) (map tool_key out) ≡ true))

head_contains : (pm : Text × Text) (pms : List (Text × Text)) → contains pm (pm ∷ pms) ≡ true
unfolding contains
head_contains pm pms = ground (arith, pair_beq_iff pm pm)

later_place :
    (n : Text) (out : List PrefixedTool) (t : GeneratedTool) (ts : List GeneratedTool)
    → PlaceOf n out ts
    → PlaceOf n out (t ∷ ts)
unfolding contains
later_place n out t ts (pm, (at, there)) = (pm, (ground arith, there))

-- a survivor with the name `n` has a place among those of the tools, and a key that survived
survivor :
    (n : Text) (out : List PrefixedTool) (ts : List GeneratedTool)
    → contains n (tool_names (surviving_only (map tool_key out) ts)) ≡ true
    → PlaceOf n out ts
unfolding contains surviving_only
survivor n out [] h = absurd cc
survivor n out (t ∷ ts) h =
    elim (Bool-cases (contains (tool_key (prefixed_of t)) (map tool_key out))) [
      | inl there ↦
          let e : tool_names (surviving_only (map tool_key out) (t ∷ ts))
              ≡ t.prefixed_name ∷ tool_names (surviving_only (map tool_key out) ts) =
            simp there in
          let h' : contains n (t.prefixed_name ∷ tool_names (surviving_only (map tool_key out) ts))
              ≡ true =
            ap (contains n) (sym e) ∙ h in
          elim (Bool-cases (t.prefixed_name == n)) [
            | inl same ↦
                let at : t.prefixed_name ≡ n = (text_eq.beq_iff t.prefixed_name n).0 same in
                (
                  (t.path_template, t.method),
                  (
                    head_contains (t.path_template, t.method) (places ts),
                    ap (λ m. contains (m, (t.path_template, t.method)) (map tool_key out)) (sym at)
                        ∙ there,
                  ),
                )
            | inr other ↦ later_place n out t ts (survivor n out ts (ground arith))
          ]
      | inr gone ↦
          let e : tool_names (surviving_only (map tool_key out) (t ∷ ts))
              ≡ tool_names (surviving_only (map tool_key out) ts) =
            simp gone in
          later_place n out t ts (survivor n out ts (ap (contains n) (sym e) ∙ h))
    ]

surviving_only-Distinct :
    (out : List PrefixedTool) (ts : List GeneratedTool)
    → Distinct (names out)
    → Distinct (places ts)
    → Distinct (tool_names (surviving_only (map tool_key out) ts))
unfolding surviving_only
surviving_only-Distinct out [] d p = tt
surviving_only-Distinct out (t ∷ ts) d p =
    let rest = surviving_only (map tool_key out) ts in
    let d' = surviving_only-Distinct out ts d p.1 in
    elim (Bool-cases (contains (tool_key (prefixed_of t)) (map tool_key out))) [
      | inl there ↦
          let e : surviving_only (map tool_key out) (t ∷ ts) ≡ t ∷ rest = simp there in
          let new : contains t.prefixed_name (tool_names rest) ≡ false =
            elim (Bool-cases (contains t.prefixed_name (tool_names rest))) [
              | inl again ↦
                  let (pm, (at, key)) = survivor t.prefixed_name out ts again in
                  let same : pm ≡ (t.path_template, t.method) =
                    one_key t.prefixed_name pm (t.path_template, t.method) out d key there in
                  let twice : contains (t.path_template, t.method) (places ts) ≡ true =
                    ap (λ x. contains x (places ts)) (sym same) ∙ at in
                  let once : contains (t.path_template, t.method) (places ts) ≡ false = p.0 in
                  absurd cc
              | inr fresh ↦ fresh
            ] in
          subst (λ l. Distinct (tool_names l)) (sym e) (new, d')
      | inr gone ↦
          let e : surviving_only (map tool_key out) (t ∷ ts) ≡ rest = simp gone in
          subst (λ l. Distinct (tool_names l)) (sym e) d'
    ]

filter_tools-Distinct :
    (ts kept : List GeneratedTool) (out : List PrefixedTool)
    → Distinct (places ts)
    → Distinct (names out)
    → Part out (map prefixed_of ts)
    → filter_tools ts (Conflicts.Result.ok out) ≡ generated kept
    → Distinct (tool_names kept)
filter_tools-Distinct ts kept out p d part h = elim (Bool-cases (length out == length ts)) [
  | inl same ↦
      let count : length out ≡ length (map prefixed_of ts) =
        (nat_eq.beq_iff (length out) (length ts)).0 same ∙ sym (length-prefixed ts) in
      let whole : out ≡ map prefixed_of ts = Part_all out (map prefixed_of ts) part count in
      let e : generated ts ≡ generated kept = sym (simp same) ∙ h in
      let here : ts ≡ kept = cc in
      subst (λ l. Distinct (tool_names l)) here
        (subst Distinct (ap names whole ∙ names-prefixed ts) d)
  | inr less ↦
      let e : generated (surviving_only (map tool_key out) ts) ≡ generated kept =
        sym (simp less) ∙ h in
      let here : surviving_only (map tool_key out) ts ≡ kept = cc in
      subst (λ l. Distinct (tool_names l)) here (surviving_only-Distinct out ts d p)
]

filtered-Distinct :
    (ts kept : List GeneratedTool) (r : Conflicts.Result)
    → Distinct (places ts)
    → ((out : List PrefixedTool) → r ≡ Conflicts.Result.ok out → Distinct (names out))
    → ((out : List PrefixedTool) → r ≡ Conflicts.Result.ok out → Part out (map prefixed_of ts))
    → filter_tools ts r ≡ generated kept
    → Distinct (tool_names kept)
filtered-Distinct ts kept (Conflicts.Result.err e) p d part h = absurd cc
filtered-Distinct ts kept (Conflicts.Result.ok out) p d part h =
    filter_tools-Distinct ts kept out p (d out refl) (part out refl) h

-- The tools that are generated for a document in which no path has a method twice have distinct
-- names, whatever the resolution of conflicts.
pub generate_tools-Distinct :
    (upstream : UpstreamConfig) (naming : NamingConfig) (items : List PathItem)
    (ts : List GeneratedTool)
    → Distinct (places (all_tools upstream naming items))
    → generate_tools upstream naming items ≡ generated ts
    → Distinct (tool_names ts)
unfolding generate_tools
generate_tools-Distinct upstream naming items ts p h =
    let tools = all_tools upstream naming items in
    let resolution = naming.conflict_resolution in
    filtered-Distinct tools ts (detect_conflicts (map prefixed_of tools) resolution) p
      (λ out. detect_conflicts-Distinct (map prefixed_of tools) out resolution)
      (λ out. detect_conflicts-Part (map prefixed_of tools) out resolution) h

-- ===== src/Upstreams/Registry/Filters.antt =====
-- The loops over the group configurations: filters compiled, and the data of each group stored.
use mathlib.Core.Path.{subst}
use mathlib.Core.List.{Memᴰ}
use go_auto_mcp.Prelude.{
  String, ◌≡◌, refl, sym, ap, ◌∙◌, true, false, Option, none, some, List, [], ◌∷◌, map, string_eq,
  ◌==◌, Dict, lookup, insert, lookup-insert, contains, Distinct, ok, ok-injective, err-ne-ok,
  if◌then◌else◌, arith, eq_iff, Bool-cases, Option-cases, inl, inr,
}
use go_auto_mcp.Upstreams.Registry.{
  Tool, ValidatedUpstream, Group, GroupData, JsonPath, compile_filters, group_data, build_groups,
}

-- the filter of a group, compiled
abbrev pub filter_of : (String → Option JsonPath) → Group → Option JsonPath
filter_of new_path g = if g.filter == "" then none else new_path g.filter

abbrev pub group_names : List Group → List String
group_names = map (λ g. g.name)

contains-group_names :
    (gs : List Group) (g : Group) → Memᴰ g gs → contains g.name (group_names gs) ≡ true
unfolding contains
contains-group_names [] g m = elim m [ ]
contains-group_names (x ∷ gs) g (Memᴰ.head here) =
    subst (λ y. contains y.name (group_names (x ∷ gs)) ≡ true) (sym here)
      (ground (arith, eq_iff x.name x.name))
contains-group_names (x ∷ gs) g (Memᴰ.tail later) = ground (arith, contains-group_names gs g later)

module _ (new_path : String → Option JsonPath) where
  compile_filters_absent :
      (filters fs : Dict String JsonPath) (gs : List Group) (name : String)
      → compile_filters new_path filters gs ≡ ok fs
      → contains name (group_names gs) ≡ false
      → lookup name fs ≡ lookup name filters
  unfolding compile_filters contains
  compile_filters_absent filters fs [] name h out = ap (lookup name) (sym (ok-injective h))
  compile_filters_absent filters fs (g ∷ gs) name h out = elim (Bool-cases (g.filter == "")) [
    | inl plain ↦
        compile_filters_absent filters fs gs name (rw (plain, compile_filters) at h) (ground arith)
    | inr set ↦ elim (Option-cases (new_path g.filter)) [
      | inl bad ↦ absurd (err-ne-ok (rw (set, bad, compile_filters) at h))
      | inr (jp, good) ↦
          compile_filters_absent (insert g.name jp filters) fs gs name
            (rw (set, good, compile_filters) at h) (ground arith)
          ∙ ground (arith, lookup-insert g.name name jp filters)
    ]
  ]

  -- the filter of the first group, when no later group has its name
  compile_filters_first :
      (filters fs : Dict String JsonPath) (g : Group) (gs : List Group)
      → compile_filters new_path filters (g ∷ gs) ≡ ok fs
      → contains g.name (group_names gs) ≡ false
      → lookup g.name filters ≡ none
      → lookup g.name fs ≡ filter_of new_path g
  unfolding compile_filters
  compile_filters_first filters fs g gs h last free = elim (Bool-cases (g.filter == "")) [
    | inl plain ↦
        compile_filters_absent filters fs gs g.name (rw (plain, compile_filters) at h) last
        ∙ (free ∙ rw plain refl)
    | inr set ↦ elim (Option-cases (new_path g.filter)) [
      | inl bad ↦ absurd (err-ne-ok (rw (set, bad, compile_filters) at h))
      | inr (jp, good) ↦
          compile_filters_absent (insert g.name jp filters) fs gs g.name
            (rw (set, good, compile_filters) at h) last
          ∙ ground (arith, lookup-insert g.name g.name jp filters, eq_iff g.name g.name)
    ]
  ]

  -- With distinct group names, each group is filtered by its own expression.
  pub compile_filters_lem :
      (filters fs : Dict String JsonPath) (gs : List Group) (g : Group)
      → compile_filters new_path filters gs ≡ ok fs
      → Distinct (group_names gs)
      → Memᴰ g gs
      → lookup g.name filters ≡ none
      → lookup g.name fs ≡ filter_of new_path g
  unfolding compile_filters
  compile_filters_lem filters fs [] g h d m free = elim m [ ]
  compile_filters_lem filters fs (x ∷ gs) g h d (Memᴰ.head here) free =
      subst (λ y. lookup y.name fs ≡ filter_of new_path y) (sym here)
        (compile_filters_first filters fs x gs h d.0
          (subst (λ y. lookup y.name filters ≡ none) here free))
  compile_filters_lem filters fs (x ∷ gs) g h d (Memᴰ.tail later) free =
      elim (Bool-cases (x.filter == "")) [
        | inl plain ↦
            compile_filters_lem filters fs gs g (rw (plain, compile_filters) at h) d.1 later free
        | inr set ↦ elim (Option-cases (new_path x.filter)) [
          | inl bad ↦ absurd (err-ne-ok (rw (set, bad, compile_filters) at h))
          | inr (jp, good) ↦
              compile_filters_lem (insert x.name jp filters) fs gs g
                (rw (set, good, compile_filters) at h) d.1 later
                (ground (
                  arith,
                  lookup-insert x.name g.name jp filters,
                  contains-group_names gs g later,
                  eq_iff x.name g.name,
                ))
        ]
      ]

module _ (filters : Dict String JsonPath) (vus : List ValidatedUpstream) (tools : List Tool) where
  lookup-build_groups_absent :
      (gs : List Group) (built : Dict String GroupData) (name : String)
      → contains name (group_names gs) ≡ false
      → lookup name (build_groups filters vus tools gs built) ≡ lookup name built
  unfolding build_groups contains
  lookup-build_groups_absent [] built name out = refl
  lookup-build_groups_absent (g ∷ gs) built name out =
      let gd = group_data (lookup g.name filters) g vus tools in
      lookup-build_groups_absent gs (insert g.name gd built) name (ground arith)
      ∙ ground (arith, lookup-insert g.name name gd built)

  lookup-build_groups_first :
      (g : Group) (gs : List Group) (built : Dict String GroupData)
      → contains g.name (group_names gs) ≡ false
      → lookup g.name (build_groups filters vus tools (g ∷ gs) built)
        ≡ some (group_data (lookup g.name filters) g vus tools)
  unfolding build_groups
  lookup-build_groups_first g gs built last =
      let gd = group_data (lookup g.name filters) g vus tools in
      lookup-build_groups_absent gs (insert g.name gd built) g.name last
      ∙ ground (arith, lookup-insert g.name g.name gd built, eq_iff g.name g.name)

  -- With distinct group names, each group has its own data.
  pub lookup-build_groups :
      (gs : List Group) (built : Dict String GroupData) (g : Group)
      → Distinct (group_names gs)
      → Memᴰ g gs
      → lookup g.name (build_groups filters vus tools gs built)
        ≡ some (group_data (lookup g.name filters) g vus tools)
  unfolding build_groups
  lookup-build_groups [] built g d m = elim m [ ]
  lookup-build_groups (x ∷ gs) built g d (Memᴰ.head here) =
      subst
        (λ y.
          lookup y.name (build_groups filters vus tools (x ∷ gs) built)
          ≡ some (group_data (lookup y.name filters) y vus tools))
        (sym here) (lookup-build_groups_first x gs built d.0)
  lookup-build_groups (x ∷ gs) built g d (Memᴰ.tail later) =
      lookup-build_groups gs (insert x.name (group_data (lookup x.name filters) x vus tools) built)
        g d.1 later

-- ===== src/Naming/Conflicts/Outcome.antt =====
-- What each conflict resolution leaves.
use mathlib.Core.Path.{subst}
use go_auto_mcp.Prelude.{
  ◌≤◌, String, ◌≡◌, refl, ◌&&◌, Option, none, some, List, [], ◌∷◌, Text, text_eq, text_beq_iff,
  string_eq, ◌==◌, contains, Distinct, keep, leb, ltb, if◌then◌else◌, arith, Bool-cases, inl, inr,
  ap, sym, ◌∙◌, ◌↔◌,
}
use go_auto_mcp.Naming.Conflicts.{
  PrefixedTool, ConflictError, ok, err, conflicts_of, keep_first, drop_all, resolve,
  detect_conflicts,
}
use go_auto_mcp.Naming.Conflicts.Counting.{
  contains-names, occurrences, names, contains-conflicts_of, occurrences-keep_first,
  occurrences-drop_all, Distinct-of_occurrences,
}

-- the first tool of a name
abbrev pub find_tool : Text → List PrefixedTool → Option PrefixedTool
find_tool name [] = none
find_tool name (t ∷ tools) = if t.prefixed_name == name then some t else find_tool name tools

module _ (tools : List PrefixedTool) where
  keep_first-Distinct : Distinct (names (keep_first (conflicts_of tools) [] tools))
  keep_first-Distinct = Distinct-of_occurrences _ (λ name.
      unfold contains in
      ground (
        arith,
        occurrences-keep_first name (conflicts_of tools) [] tools,
        contains-conflicts_of name tools,
      ))

  drop_all-Distinct : Distinct (names (drop_all (conflicts_of tools) tools))
  drop_all-Distinct = Distinct-of_occurrences _ (λ name. ground (
    arith,
    occurrences-drop_all name (conflicts_of tools) tools,
    contains-conflicts_of name tools,
  ))

  no_conflicts-Distinct : conflicts_of tools ≡ [] → Distinct (names tools)
  no_conflicts-Distinct e = Distinct-of_occurrences tools (λ name.
      let h : contains name [] ≡ ltb 1 (occurrences name tools) =
        rw e at (contains-conflicts_of name tools) in
      unfold contains in ground (arith, h))

ok-injective : {a b : List PrefixedTool} → ok a ≡ ok b → a ≡ b
ok-injective h = cc

err-ne-ok : {e : ConflictError} {out : List PrefixedTool} → err e ≡ ok out → ⊥
err-ne-ok h = cc

-- no conflicts, nothing to drop
drop_all-nil : (tools : List PrefixedTool) → drop_all [] tools ≡ tools
unfolding drop_all contains
drop_all-nil [] = refl
drop_all-nil (t ∷ tools) = ap (λ l. t ∷ l) (drop_all-nil tools)

resolve-Distinct :
    (conflicts : List Text) (tools out : List PrefixedTool) (resolution : String)
    → conflicts_of tools ≡ conflicts
    → resolve conflicts tools resolution ≡ ok out
    → Distinct (names out)
unfolding resolve
resolve-Distinct [] tools out resolution e h =
    subst (λ l. Distinct (names l)) (ok-injective h) (no_conflicts-Distinct tools e)
resolve-Distinct (name ∷ more) tools out resolution e h =
    elim (Bool-cases (resolution == "error")) [
      | inl r ↦ absurd (err-ne-ok (rw r at h))
      | inr r ↦ elim (Bool-cases (resolution == "first_wins")) [
        | inl first ↦
            subst (λ l. Distinct (names l)) (ok-injective (rw (r, first) at h))
              (rw e at (keep_first-Distinct tools))
        | inr other ↦ elim (Bool-cases (resolution == "skip")) [
          | inl skip ↦
              subst (λ l. Distinct (names l)) (ok-injective (rw (r, other, skip) at h))
                (rw e at (drop_all-Distinct tools))
          | inr unknown ↦ absurd (err-ne-ok (rw (r, other, unknown) at h))
        ]
      ]
    ]

-- Whatever the resolution: where DetectConflicts returns tools, no two of them have the same name.
pub detect_conflicts-Distinct :
    (tools out : List PrefixedTool) (resolution : String)
    → detect_conflicts tools resolution ≡ ok out
    → Distinct (names out)
unfolding detect_conflicts
detect_conflicts-Distinct tools out resolution =
    resolve-Distinct (conflicts_of tools) tools out resolution refl

find_tool-keep_first :
    (name : Text) (conflicts seen : List Text) (tools : List PrefixedTool)
    → find_tool name (keep_first conflicts seen tools)
      ≡ (if contains name conflicts && contains name seen then none else find_tool name tools)
unfolding keep_first contains
find_tool-keep_first name conflicts seen [] = ground arith
find_tool-keep_first name conflicts seen (t ∷ tools) = ground (
  arith,
  find_tool-keep_first name conflicts seen tools,
  find_tool-keep_first name conflicts (t.prefixed_name ∷ seen) tools,
  text_beq_iff t.prefixed_name name,
)

-- "first_wins" never fails, and keeps for each name exactly the first tool that had it.
pub detect_conflicts_first_wins :
    (tools : List PrefixedTool)
    → (out : List PrefixedTool) × (detect_conflicts tools "first_wins" ≡ ok out)
      × ((name : Text) → find_tool name out ≡ find_tool name tools)
unfolding detect_conflicts
detect_conflicts_first_wins tools = go (conflicts_of tools)
  where
    go :
        (conflicts : List Text)
        → (out : List PrefixedTool) × (resolve conflicts tools "first_wins" ≡ ok out)
          × ((name : Text) → find_tool name out ≡ find_tool name tools)
    go [] = (tools, unfold resolve in refl, λ name. refl)
    go (c ∷ cs) = (
      keep_first (c ∷ cs) [] tools,
      unfold resolve in refl,
      λ name. unfold contains in ground (arith, find_tool-keep_first name (c ∷ cs) [] tools),
    )

drop_all-eq-keep :
    (conflicts : List Text) (all tools : List PrefixedTool)
    → ((name : Text) → contains name conflicts ≡ ltb 1 (occurrences name all))
    → drop_all conflicts tools ≡ keep (λ t. leb (occurrences t.prefixed_name all) 1) tools
unfolding drop_all
drop_all-eq-keep conflicts all [] h = refl
drop_all-eq-keep conflicts all (t ∷ tools) h =
    ground (arith, drop_all-eq-keep conflicts all tools h, h t.prefixed_name)

-- "skip" never fails, and leaves, in order, the tools whose name no other tool has.
pub detect_conflicts_skip :
    (tools : List PrefixedTool)
    → detect_conflicts tools "skip"
      ≡ ok (keep (λ t. leb (occurrences t.prefixed_name tools) 1) tools)
unfolding detect_conflicts
detect_conflicts_skip tools = go (conflicts_of tools) refl
  where
    go :
        (conflicts : List Text)
        → conflicts_of tools ≡ conflicts
        → resolve conflicts tools "skip"
          ≡ ok (keep (λ t. leb (occurrences t.prefixed_name tools) 1) tools)
    go [] e = ap ok (
        sym (drop_all-nil tools)
        ∙ drop_all-eq-keep [] tools tools (λ name. rw e at (contains-conflicts_of name tools)))
    go (c ∷ cs) e =
        ap ok (
          drop_all-eq-keep (c ∷ cs) tools tools
            (λ name. rw e at (contains-conflicts_of name tools)))

occurrences-le_one :
    (name : Text) (tools : List PrefixedTool) → Distinct (names tools) → occurrences name tools ≤ 1
occurrences-le_one name [] h = omega arith
occurrences-le_one name (t ∷ tools) h = ground (
  arith,
  occurrences-le_one name tools h.1,
  contains-names t.prefixed_name tools,
  text_beq_iff t.prefixed_name name,
)

Distinct-resolve :
    (conflicts : List Text) (tools : List PrefixedTool)
    → conflicts_of tools ≡ conflicts
    → Distinct (names tools)
    → resolve conflicts tools "error" ≡ ok tools
unfolding resolve contains
Distinct-resolve [] tools e h = refl
Distinct-resolve (c ∷ cs) tools e h =
    let k : contains c (c ∷ cs) ≡ ltb 1 (occurrences c tools) =
      rw e at (contains-conflicts_of c tools) in
    absurd (ground (arith, k, text_beq_iff c c, occurrences-le_one c tools h))

resolve_error :
    (conflicts : List Text) (tools out : List PrefixedTool)
    → resolve conflicts tools "error" ≡ ok out
    → out ≡ tools
unfolding resolve
resolve_error [] tools out h = sym (ok-injective h)
resolve_error (c ∷ cs) tools out h = absurd (err-ne-ok h)

-- "error" succeeds exactly on tools with distinct names, and then changes nothing.
pub detect_conflicts_error :
    (tools out : List PrefixedTool)
    → (detect_conflicts tools "error" ≡ ok out) ↔ (Distinct (names tools) × (out ≡ tools))
unfolding detect_conflicts
detect_conflicts_error tools out = (
  λ h.
      let same = resolve_error (conflicts_of tools) tools out h in
      (
        subst (λ l. Distinct (names l)) same
            (resolve-Distinct (conflicts_of tools) tools out "error" refl h),
        same,
      ),
  λ (d, e). rw e (Distinct-resolve (conflicts_of tools) tools refl d),
)

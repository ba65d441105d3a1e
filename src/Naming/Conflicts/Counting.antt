-- ===== src/Naming/Conflicts/Counting.antt =====
-- How often a name occurs, and what the passes of DetectConflicts do to that number.
use go_auto_mcp.Prelude.{
  ℕ, ◌+◌, ◌≤◌, ◌≡◌, refl, false, List, [], ◌∷◌, Text, text_eq, text_beq_iff, ◌==◌, Dict, lookup,
  insert, lookup-insert, keys, insert-Distinct, contains, Distinct, ltb, if◌then◌else◌, arith,
}
use go_auto_mcp.Naming.Conflicts.{
  PrefixedTool, count_of, count_names, conflicting, conflicts_of, keep_first, drop_all,
}

abbrev pub occurrences : Text → List PrefixedTool → ℕ
occurrences name [] = 0
occurrences name (t ∷ tools) = (if t.prefixed_name == name then 1 else 0) + occurrences name tools

abbrev pub names : List PrefixedTool → List Text
names [] = []
names (t ∷ tools) = t.prefixed_name ∷ names tools

count_names_lem :
    (name : Text) (counts : Dict Text ℕ) (tools : List PrefixedTool)
    → count_of name (count_names counts tools) ≡ count_of name counts + occurrences name tools
unfolding count_names
count_names_lem name counts [] = omega arith
count_names_lem name counts (t ∷ tools) = ground (
  arith,
  count_names_lem name (insert t.prefixed_name (count_of t.prefixed_name counts + 1) counts) tools,
  lookup-insert t.prefixed_name name (count_of t.prefixed_name counts + 1) counts,
  text_beq_iff t.prefixed_name name,
)

count_names-Distinct :
    (counts : Dict Text ℕ) (tools : List PrefixedTool)
    → Distinct (keys counts)
    → Distinct (keys (count_names counts tools))
unfolding count_names
count_names-Distinct counts [] h = h
count_names-Distinct counts (t ∷ tools) h =
    count_names-Distinct (insert t.prefixed_name (count_of t.prefixed_name counts + 1) counts) tools
      (insert-Distinct t.prefixed_name (count_of t.prefixed_name counts + 1) counts h)

-- a name that is no key is no conflict
conflicting_absent :
    (name : Text) (counts : Dict Text ℕ)
    → contains name (keys counts) ≡ false
    → contains name (conflicting counts) ≡ false
unfolding conflicting contains
conflicting_absent name [] h = refl
conflicting_absent name ((k, n) ∷ counts) h = ground (arith, conflicting_absent name counts)

contains-conflicting :
    (name : Text) (counts : Dict Text ℕ)
    → Distinct (keys counts)
    → contains name (conflicting counts) ≡ ltb 1 (count_of name counts)
unfolding conflicting contains lookup
contains-conflicting name [] h = refl
contains-conflicting name ((k, n) ∷ counts) h = ground (
  arith,
  contains-conflicting name counts h.1,
  conflicting_absent name counts,
  text_beq_iff k name,
)

pub contains-conflicts_of :
    (name : Text) (tools : List PrefixedTool)
    → contains name (conflicts_of tools) ≡ ltb 1 (occurrences name tools)
unfolding conflicts_of
contains-conflicts_of name tools =
    rw (contains-conflicting name (count_names [] tools) (count_names-Distinct [] tools tt))
      (rw (count_names_lem name [] tools) (unfold lookup in ground arith))

pub occurrences-keep_first :
    (name : Text) (conflicts seen : List Text) (tools : List PrefixedTool)
    → occurrences name (keep_first conflicts seen tools) ≡ (
        if contains name conflicts
        then (if contains name seen then 0 else if ltb 0 (occurrences name tools) then 1 else 0)
        else occurrences name tools)
unfolding keep_first contains
occurrences-keep_first name conflicts seen [] = ground arith
occurrences-keep_first name conflicts seen (t ∷ tools) = ground (
  arith,
  occurrences-keep_first name conflicts seen tools,
  occurrences-keep_first name conflicts (t.prefixed_name ∷ seen) tools,
  text_beq_iff t.prefixed_name name,
)

pub occurrences-drop_all :
    (name : Text) (conflicts : List Text) (tools : List PrefixedTool)
    → occurrences name (drop_all conflicts tools)
      ≡ (if contains name conflicts then 0 else occurrences name tools)
unfolding drop_all
occurrences-drop_all name conflicts [] = ground arith
occurrences-drop_all name conflicts (t ∷ tools) =
    ground (arith, occurrences-drop_all name conflicts tools, text_beq_iff t.prefixed_name name)

pub contains-names :
    (name : Text) (tools : List PrefixedTool)
    → contains name (names tools) ≡ ltb 0 (occurrences name tools)
unfolding contains
contains-names name [] = refl
contains-names name (t ∷ tools) = ground (arith, contains-names name tools)

pub Distinct-of_occurrences :
    (tools : List PrefixedTool)
    → ((name : Text) → occurrences name tools ≤ 1)
    → Distinct (names tools)
Distinct-of_occurrences [] h = tt
Distinct-of_occurrences (t ∷ tools) h = (
  ground (
    arith,
    contains-names t.prefixed_name tools,
    h t.prefixed_name,
    text_beq_iff t.prefixed_name t.prefixed_name,
  ),
  Distinct-of_occurrences tools (λ name. ground (arith, h name)),
)

-- ===== src/Naming/Conflicts.antt =====
-- pkg/openapi/naming.go, DetectConflicts: two tools of one upstream with the same prefixed name.
pub mod Counting
pub mod Outcome
pub mod Survivors
mod Tests
use go_auto_mcp.Prelude.{
  ℕ, ◌+◌, String, Bool, true, false, Option, none, some, List, [], ◌∷◌, map, Text, text_eq,
  string_eq, ◌==◌, Dict, lookup, insert, contains, ltb, if◌then◌else◌,
}

pub record PrefixedTool : Type 0 where
  pub prefixed_name : Text
  pub original_path : Text
  pub original_method : Text

pub data ConflictError : Type 0 where
  name_conflicts : List Text → ConflictError
  unknown_resolution : String → ConflictError

pub data Result : Type 0 where
  ok : List PrefixedTool → Result
  err : ConflictError → Result

-- a missing key reads as 0
abbrev pub count_of : Text → Dict Text ℕ → ℕ
count_of name counts = elim (lookup name counts) [ none ↦ 0 | some n ↦ n ]

-- the loop of `counts[t.PrefixedName]++`
unfoldable pub count_names : Dict Text ℕ → List PrefixedTool → Dict Text ℕ
count_names counts [] = counts
count_names counts (t ∷ tools) =
    count_names (insert t.prefixed_name (count_of t.prefixed_name counts + 1) counts) tools

-- the names that were counted more than once
unfoldable pub conflicting : Dict Text ℕ → List Text
conflicting [] = []
conflicting ((name, n) ∷ counts) =
    let rest = conflicting counts in if ltb 1 n then name ∷ rest else rest

unfoldable pub conflicts_of : List PrefixedTool → List Text
unfolding count_names conflicting
conflicts_of tools = conflicting (count_names [] tools)

-- the loop of "first_wins", with the set of the conflicting names that it has seen
unfoldable pub keep_first : List Text → List Text → List PrefixedTool → List PrefixedTool
keep_first conflicts seen [] = []
keep_first conflicts seen (t ∷ tools) =
    let later = keep_first conflicts seen tools in
    let after = keep_first conflicts (t.prefixed_name ∷ seen) tools in
    if contains t.prefixed_name conflicts
    then (if contains t.prefixed_name seen then later else t ∷ after)
    else t ∷ later

-- the loop of "skip"
pub drop_all : List Text → List PrefixedTool → List PrefixedTool
drop_all conflicts [] = []
drop_all conflicts (t ∷ tools) =
    let rest = drop_all conflicts tools in
    if contains t.prefixed_name conflicts then rest else t ∷ rest

unfoldable pub resolve : List Text → List PrefixedTool → String → Result
unfolding keep_first drop_all
resolve [] tools resolution = ok tools
resolve (name ∷ names) tools resolution =
    if resolution == "error"
    then err (name_conflicts (name ∷ names))
    else if resolution == "first_wins"
    then ok (keep_first (name ∷ names) [] tools)
    else if resolution == "skip"
    then ok (drop_all (name ∷ names) tools)
    else err (unknown_resolution resolution)

unfoldable pub detect_conflicts : List PrefixedTool → String → Result
unfolding conflicts_of resolve
detect_conflicts tools resolution = resolve (conflicts_of tools) tools resolution

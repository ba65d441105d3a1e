-- ===== src/Naming/Slug.antt =====
-- pkg/openapi/naming.go, Slugify and sanitizeIdentifier: a base name from a path or an operationId.
-- A string is the list of its code points. Each regular expression is a pass over that list.
pub mod Shape
pub mod Stable
mod Tests
use go_auto_mcp.Prelude.{
  ℕ, ◌+◌, ◌-◌, Bool, true, false, ◌&&◌, ◌||◌, not, Option, none, some, List, [], ◌∷◌, ◌++◌, map,
  Text, codes, ◌==◌, nat_eq, text_eq, leb, if◌then◌else◌,
}

-- config.SlugRulesConfig
pub record SlugRules : Type 0 where
  pub replace_slashes : Bool
  pub replace_braces : Bool
  pub expand_camel_case : Bool
  pub lowercase : Bool
  pub collapse_separators : Bool

abbrev pub is_upper : ℕ → Bool
is_upper c = leb b'A' c && leb c b'Z'

abbrev pub is_lower : ℕ → Bool
is_lower c = leb b'a' c && leb c b'z'

abbrev pub is_digit : ℕ → Bool
is_digit c = leb b'0' c && leb c b'9'

-- the class [a-zA-Z0-9_]
abbrev pub is_ident : ℕ → Bool
is_ident c = is_upper c || is_lower c || is_digit c || (c == b'_')

abbrev pub is_underscore : ℕ → Bool
is_underscore c = c == b'_'

-- `strings.ReplaceAll(s, c, "")` for one character
remove : ℕ → Text → Text
remove d [] = []
remove d (c ∷ s) = let rest = remove d s in if c == d then rest else c ∷ rest

-- `strings.ReplaceAll(s, from, to)` for two characters
abbrev replace : ℕ → ℕ → ℕ → ℕ
replace from to c = if c == from then to else c

-- `ReplaceAllString(s, "_")` for the expression `p+`: one "_" for each maximal run. The flag tells
-- that the pass stands inside a run.
pub squeeze_from : (ℕ → Bool) → Bool → Text → Text
squeeze_from p inside [] = []
squeeze_from p inside (c ∷ s) =
    let rest = squeeze_from p (p c) s in
    if p c then (if inside then rest else b'_' ∷ rest) else c ∷ rest

-- nonAlnumUnderscore and runOfUnderscores
squeeze_non_ident : Text → Text
unfolding squeeze_from
squeeze_non_ident = squeeze_from (λ c. not (is_ident c)) false

squeeze_underscores : Text → Text
unfolding squeeze_from
squeeze_underscores = squeeze_from is_underscore false

abbrev pub starts_with : (ℕ → Bool) → Text → Bool
starts_with p [] = false
starts_with p (c ∷ s) = p c

-- camelUpperLower, ([A-Z]+)([A-Z][a-z]): a match ends with the first lower case letter behind a
-- run of capitals, and puts "_" before the run's last capital if that is not its first.
upper_lower_from : Bool → Text → Text
upper_lower_from after_upper [] = []
upper_lower_from after_upper (c ∷ s) =
    let rest = upper_lower_from (is_upper c) s in
    if after_upper && is_upper c && starts_with is_lower s then b'_' ∷ c ∷ rest else c ∷ rest

-- camelLowerUpper, ([a-z0-9])([A-Z]): "_" between the two.
lower_upper_from : Bool → Text → Text
lower_upper_from after_lower [] = []
lower_upper_from after_lower (c ∷ s) =
    let rest = lower_upper_from (is_lower c || is_digit c) s in
    if after_lower && is_upper c then b'_' ∷ c ∷ rest else c ∷ rest

-- `strings.ToLower` and `strings.ToUpper` on ASCII: the text holds nothing else there
unfoldable pub to_lower : ℕ → ℕ
to_lower c = if is_upper c then c + 32 else c

unfoldable pub to_upper : ℕ → ℕ
unfolding to_lower
to_upper c = if is_lower c then c - 32 else c

-- `strings.Trim(s, "_")`, from the left and from the right
trim_left : Text → Text
trim_left [] = []
trim_left (c ∷ s) = if is_underscore c then trim_left s else c ∷ s

abbrev is_empty : Text → Bool
is_empty [] = true
is_empty (c ∷ s) = false

trim_right : Text → Text
trim_right [] = []
trim_right (c ∷ s) =
    let rest = trim_right s in if is_underscore c && is_empty rest then [] else c ∷ rest

trim_underscores : Text → Text
unfolding trim_left trim_right
trim_underscores s = trim_right (trim_left s)

-- One step for each rule, done or left out.
unbraced : Bool → Text → Text
unfolding remove
unbraced on s = if on then remove b'}' (remove b'{' s) else s

unslashed : Bool → Text → Text
unslashed on s = if on then map (replace b'/' b'_') s else s

lowered : Bool → Text → Text
unfolding to_lower
lowered on s = if on then map to_lower s else s

collapsed : Bool → Text → Text
unfolding squeeze_underscores
collapsed on s = if on then squeeze_underscores s else s

camel_expanded : Bool → Text → Text
unfolding upper_lower_from lower_upper_from
camel_expanded on s = if on then lower_upper_from false (upper_lower_from false s) else s

-- The steps that Slugify and sanitizeIdentifier have in common, in their order.
pub clean : SlugRules → Text → Text
unfolding unbraced unslashed squeeze_non_ident lowered collapsed trim_underscores
clean rules s =
    let ident =
      squeeze_non_ident (unslashed rules.replace_slashes (unbraced rules.replace_braces s)) in
    trim_underscores (collapsed rules.collapse_separators (lowered rules.lowercase ident))

pub sanitize_identifier : Text → SlugRules → Text
unfolding clean camel_expanded
sanitize_identifier id rules = clean rules (camel_expanded rules.expand_camel_case id)

pub slug_verb : Text → Bool → Text
unfolding to_upper to_lower
slug_verb method has_path_params =
    let m = map to_upper method in
    if m == codes "GET"
    then (if has_path_params then codes "get" else codes "list")
    else if m == codes "POST"
    then codes "create"
    else if m == codes "PUT"
    then codes "update"
    else if m == codes "DELETE"
    then codes "delete"
    else if m == codes "PATCH"
    then codes "patch"
    else map to_lower method

-- `strings.TrimPrefix(path, "/")`
abbrev trim_slash : Text → Text
trim_slash [] = []
trim_slash (c ∷ s) = if c == b'/' then s else c ∷ s

pub slugify : Text → Text → Bool → SlugRules → Text
unfolding slug_verb clean
slugify method path has_path_params rules =
    slug_verb method has_path_params ++ (b'_' ∷ clean rules (trim_slash path))

-- What ToolBaseName reads of an operation: the string of its x-mcp-tool-name extension, "" if
-- there is none or if it is no string, and its operationId.
pub record Operation : Type 0 where
  pub tool_name : Text
  pub operation_id : Text

unfoldable pub tool_base_name : Operation → Text → Text → Bool → SlugRules → Text
unfolding sanitize_identifier slugify
tool_base_name op method path has_path_params rules =
    if not (is_empty op.tool_name)
    then op.tool_name
    else if not (is_empty op.operation_id)
    then sanitize_identifier op.operation_id rules
    else slugify method path has_path_params rules

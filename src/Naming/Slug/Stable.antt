-- ===== src/Naming/Slug/Stable.antt =====
-- The steps of sanitizeIdentifier on a finished slug.
use go_auto_mcp.Prelude.{ℕ, ◌≡◌, refl, ap, ◌||◌, Bool, true, false, not, [], ◌∷◌, map, Text, arith}
use go_auto_mcp.Naming.Slug.{
  SlugRules, is_upper, is_lower, is_digit, is_ident, is_underscore, remove, replace, squeeze_from,
  squeeze_non_ident, squeeze_underscores, starts_with, upper_lower_from, lower_upper_from, to_lower,
  trim_left, trim_right, trim_underscores, unbraced, unslashed, lowered, collapsed, camel_expanded,
  clean, sanitize_identifier,
}
use go_auto_mcp.Naming.Slug.Shape.{
  AllIdent, NoUpper, NoDouble, EndsClean, NoEdge, IsSlug, sanitize_identifier-IsSlug,
}

remove_same : (d : ℕ) (s : Text) → is_ident d ≡ false → AllIdent s → remove d s ≡ s
unfolding remove
remove_same d [] n h = refl
remove_same d (c ∷ s) n h = ground (arith, remove_same d s n h.1)

replace_same :
    (from to : ℕ) (s : Text) → is_ident from ≡ false → AllIdent s → map (replace from to) s ≡ s
replace_same from to [] n h = refl
replace_same from to (c ∷ s) n h = ground (arith, replace_same from to s n h.1)

squeeze_same :
    (inside : Bool) (s : Text) → AllIdent s → squeeze_from (λ c. not (is_ident c)) inside s ≡ s
unfolding squeeze_from
squeeze_same inside [] h = refl
squeeze_same inside (c ∷ s) h = rw h.0 (ap (λ l. c ∷ l) (squeeze_same false s h.1))

lower_same : (s : Text) → NoUpper s → map to_lower s ≡ s
unfolding to_lower
lower_same [] h = refl
lower_same (c ∷ s) h = rw h.0 (ap (λ l. c ∷ l) (lower_same s h.1))

collapse_same : (s : Text) → NoDouble s → squeeze_from is_underscore false s ≡ s
unfolding squeeze_from
collapse_same [] h = refl
collapse_same (c ∷ []) h = ground arith
collapse_same (c ∷ d ∷ s) h = ground (arith, collapse_same (d ∷ s) h.1)

upper_lower_same : (after : Bool) (s : Text) → NoUpper s → upper_lower_from after s ≡ s
unfolding upper_lower_from
upper_lower_same after [] h = refl
upper_lower_same after (c ∷ s) h = ground (arith, upper_lower_same (is_upper c) s h.1)

lower_upper_same : (after : Bool) (s : Text) → NoUpper s → lower_upper_from after s ≡ s
unfolding lower_upper_from
lower_upper_same after [] h = refl
lower_upper_same after (c ∷ s) h = ground (arith, lower_upper_same (is_lower c || is_digit c) s h.1)

trim_left_same : (s : Text) → starts_with is_underscore s ≡ false → trim_left s ≡ s
unfolding trim_left
trim_left_same [] h = refl
trim_left_same (c ∷ s) h = rw h

trim_right_same : (s : Text) → EndsClean s → trim_right s ≡ s
unfolding trim_right
trim_right_same [] h = refl
trim_right_same (c ∷ s) h = rw (trim_right_same s h.1) (rw h.0 refl)

trim_same : (s : Text) → NoEdge s → trim_underscores s ≡ s
unfolding trim_underscores
trim_same s h = rw (trim_left_same s h.0) (trim_right_same s h.1)

-- each step, done or left out
module _ (s : Text) where
  unbraced_same : (on : Bool) → AllIdent s → unbraced on s ≡ s
  unfolding unbraced
  unbraced_same false h = refl
  unbraced_same true h = rw (remove_same b'{' s refl h) (remove_same b'}' s refl h)

  unslashed_same : (on : Bool) → AllIdent s → unslashed on s ≡ s
  unfolding unslashed
  unslashed_same false h = refl
  unslashed_same true h = replace_same b'/' b'_' s refl h

  lowered_same : (on : Bool) → NoUpper s → lowered on s ≡ s
  unfolding lowered
  lowered_same false h = refl
  lowered_same true h = lower_same s h

  collapsed_same : (on : Bool) → (on ≡ true → NoDouble s) → collapsed on s ≡ s
  unfolding collapsed squeeze_underscores
  collapsed_same false h = refl
  collapsed_same true h = collapse_same s (h refl)

  camel_expanded_same : (on : Bool) → NoUpper s → camel_expanded on s ≡ s
  unfolding camel_expanded
  camel_expanded_same false h = refl
  camel_expanded_same true h = rw (upper_lower_same false s h) (lower_upper_same false s h)

  squeeze_non_ident_same : AllIdent s → squeeze_non_ident s ≡ s
  unfolding squeeze_non_ident
  squeeze_non_ident_same h = squeeze_same false s h

sanitize_identifier_same :
    (rules : SlugRules) (s : Text)
    → rules.lowercase ≡ true
    → IsSlug rules s
    → sanitize_identifier s rules ≡ s
unfolding sanitize_identifier clean
sanitize_identifier_same rules s low h = simp (
  camel_expanded_same s rules.expand_camel_case (h.no_upper low),
  unbraced_same s rules.replace_braces h.ident,
  unslashed_same s rules.replace_slashes h.ident,
  squeeze_non_ident_same s h.ident,
  lowered_same s rules.lowercase (h.no_upper low),
  collapsed_same s rules.collapse_separators h.no_double,
  trim_same s h.edges,
)

-- With lower case on, sanitizing a sanitized identifier changes nothing.
pub sanitize_identifier_idempotent :
    (id : Text) (rules : SlugRules)
    → rules.lowercase ≡ true
    → sanitize_identifier (sanitize_identifier id rules) rules ≡ sanitize_identifier id rules
sanitize_identifier_idempotent id rules low =
    sanitize_identifier_same rules (sanitize_identifier id rules) low
      (sanitize_identifier-IsSlug id rules)

-- ===== src/Naming/Slug/Shape.antt =====
-- What a slug looks like, whatever the input.
use go_auto_mcp.Prelude.{
  ℕ, ◌≡◌, refl, Bool, true, false, ◌&&◌, [], ◌∷◌, map, Text, All, Bool-cases, arith, inl, inr,
}
use go_auto_mcp.Naming.Slug.{
  unbraced, unslashed, camel_expanded, lowered, collapsed, not, squeeze_underscores,
  sanitize_identifier, squeeze_non_ident, SlugRules, clean, is_upper, is_ident, is_underscore,
  squeeze_from, starts_with, to_lower, trim_left, trim_right, trim_underscores, is_empty,
}

-- every character is in [a-zA-Z0-9_]
abbrev pub AllIdent : Text → Type 0
AllIdent s = All (λ c. is_ident c ≡ true) s

abbrev pub NoUpper : Text → Type 0
NoUpper s = All (λ c. is_upper c ≡ false) s

-- no two "_" side by side
abbrev pub NoDouble : Text → Type 0
NoDouble [] = Unit
NoDouble (c ∷ s) = ((is_underscore c && starts_with is_underscore s) ≡ false) × NoDouble s

-- no "_" at the right end
abbrev pub EndsClean : Text → Type 0
EndsClean [] = Unit
EndsClean (c ∷ s) = ((is_underscore c && is_empty s) ≡ false) × EndsClean s

abbrev pub NoEdge : Text → Type 0
NoEdge s = (starts_with is_underscore s ≡ false) × EndsClean s

module _ (P : ℕ → Type 0) where
  -- A pass writes only "_" and characters outside the class that it squeezes.
  squeeze_from-All :
      (p : ℕ → Bool) (inside : Bool) (s : Text)
      → P b'_'
      → ((c : ℕ) → p c ≡ false → P c)
      → All P (squeeze_from p inside s)
  unfolding squeeze_from
  squeeze_from-All p inside [] u h = tt
  squeeze_from-All p inside (c ∷ s) u h = ground (arith, squeeze_from-All p (p c) s u h, h c)

  squeeze_from-keeps :
      (p : ℕ → Bool) (inside : Bool) (s : Text) → P b'_' → All P s → All P (squeeze_from p inside s)
  unfolding squeeze_from
  squeeze_from-keeps p inside [] u h = tt
  squeeze_from-keeps p inside (c ∷ s) u h = ground (arith, squeeze_from-keeps p (p c) s u h.1)

  trim_left-All : (s : Text) → All P s → All P (trim_left s)
  unfolding trim_left
  trim_left-All [] h = tt
  trim_left-All (c ∷ s) h = ground (arith, trim_left-All s h.1)

  trim_right-All : (s : Text) → All P s → All P (trim_right s)
  unfolding trim_right
  trim_right-All [] h = tt
  trim_right-All (c ∷ s) h = ground (arith, trim_right-All s h.1)

  trim-All : (s : Text) → All P s → All P (trim_underscores s)
  unfolding trim_underscores
  trim-All s h = trim_right-All (trim_left s) (trim_left-All s h)

to_lower-AllIdent : (s : Text) → AllIdent s → AllIdent (map to_lower s)
unfolding to_lower
to_lower-AllIdent [] h = tt
to_lower-AllIdent (c ∷ s) h = (ground (arith, h.0), to_lower-AllIdent s h.1)

to_lower-NoUpper : (s : Text) → NoUpper (map to_lower s)
unfolding to_lower
to_lower-NoUpper [] = tt
to_lower-NoUpper (c ∷ s) = (ground arith, to_lower-NoUpper s)

-- inside a run, the pass does not write another "_" first
squeeze-starts : (s : Text) → starts_with is_underscore (squeeze_from is_underscore true s) ≡ false
unfolding squeeze_from
squeeze-starts [] = refl
squeeze-starts (c ∷ s) = elim (Bool-cases (is_underscore c)) [
  | inl e ↦ rw e (squeeze-starts s)
  | inr e ↦ rw e e
]

squeeze-NoDouble : (inside : Bool) (s : Text) → NoDouble (squeeze_from is_underscore inside s)
unfolding squeeze_from
squeeze-NoDouble inside [] = tt
squeeze-NoDouble true (c ∷ s) =
    ground (arith, squeeze-NoDouble (is_underscore c) s, squeeze-starts s)
squeeze-NoDouble false (c ∷ s) =
    ground (arith, squeeze-NoDouble (is_underscore c) s, squeeze-starts s)

trim_left-NoDouble : (s : Text) → NoDouble s → NoDouble (trim_left s)
unfolding trim_left
trim_left-NoDouble [] h = tt
trim_left-NoDouble (c ∷ s) h = ground (arith, trim_left-NoDouble s h.1)

trim_left-starts : (s : Text) → starts_with is_underscore (trim_left s) ≡ false
unfolding trim_left
trim_left-starts [] = refl
trim_left-starts (c ∷ s) = elim (Bool-cases (is_underscore c)) [
  | inl e ↦ rw e (trim_left-starts s)
  | inr e ↦ rw e e
]

-- trimming on the right only cuts: what it leaves starts as before
trim_right-starts :
    (s : Text)
    → starts_with is_underscore s ≡ false
    → starts_with is_underscore (trim_right s) ≡ false
unfolding trim_right
trim_right-starts [] h = refl
trim_right-starts (c ∷ s) h = ground arith

trim_right-NoDouble : (s : Text) → NoDouble s → NoDouble (trim_right s)
unfolding trim_right
trim_right-NoDouble [] h = tt
trim_right-NoDouble (c ∷ s) h = elim (Bool-cases (is_underscore c)) [
  | inl e ↦
      let cut : starts_with is_underscore (trim_right s) ≡ false =
        trim_right-starts s (rw e at h.0) in
      rw e (elim (Bool-cases (is_empty (trim_right s))) [
        | inl gone ↦ rw gone tt
        | inr left ↦ rw left (rw e cut, trim_right-NoDouble s h.1)
      ])
  | inr e ↦ rw e (rw e refl, trim_right-NoDouble s h.1)
]

trim_right-EndsClean : (s : Text) → EndsClean (trim_right s)
unfolding trim_right
trim_right-EndsClean [] = tt
trim_right-EndsClean (c ∷ s) = ground (arith, trim_right-EndsClean s)

trim-NoEdge : (s : Text) → NoEdge (trim_underscores s)
unfolding trim_underscores
trim-NoEdge s =
    (trim_right-starts (trim_left s) (trim_left-starts s), trim_right-EndsClean (trim_left s))

-- All that the rules promise of a slug.
pub record IsSlug (rules : SlugRules) (s : Text) : Type 0 where
  pub ident : AllIdent s
  pub edges : NoEdge s
  pub no_upper : rules.lowercase ≡ true → NoUpper s
  pub no_double : rules.collapse_separators ≡ true → NoDouble s

module _ (s : Text) where
  lowered-AllIdent : (on : Bool) → AllIdent s → AllIdent (lowered on s)
  unfolding lowered
  lowered-AllIdent true h = to_lower-AllIdent s h
  lowered-AllIdent false h = h

  lowered-NoUpper : {on : Bool} → on ≡ true → NoUpper (lowered on s)
  unfolding lowered
  lowered-NoUpper e = rw e (to_lower-NoUpper s)

  collapsed-NoDouble : {on : Bool} → on ≡ true → NoDouble (collapsed on s)
  unfolding collapsed squeeze_underscores
  collapsed-NoDouble e = rw e (squeeze-NoDouble false s)

  collapsed-All : (on : Bool) (P : ℕ → Type 0) → P b'_' → All P s → All P (collapsed on s)
  unfolding collapsed squeeze_underscores
  collapsed-All true P u h = squeeze_from-keeps P is_underscore false s u h
  collapsed-All false P u h = h

squeeze_non_ident-AllIdent : (s : Text) → AllIdent (squeeze_non_ident s)
unfolding squeeze_non_ident
squeeze_non_ident-AllIdent s =
    squeeze_from-All (λ c. is_ident c ≡ true) (λ c. not (is_ident c)) false s refl
      (λ c h. ground arith)

pub clean-IsSlug : (rules : SlugRules) (s : Text) → IsSlug rules (clean rules s)
unfolding clean trim_underscores
clean-IsSlug rules s =
    let raw =
      squeeze_non_ident (unslashed rules.replace_slashes (unbraced rules.replace_braces s)) in
    let low = lowered rules.lowercase raw in
    let ident = lowered-AllIdent raw rules.lowercase (
      squeeze_non_ident-AllIdent
        (unslashed rules.replace_slashes (unbraced rules.replace_braces s))) in
    let col = collapsed rules.collapse_separators low in
    record {
      ident =
          trim-All (λ c. is_ident c ≡ true) col
            (collapsed-All low rules.collapse_separators (λ c. is_ident c ≡ true) refl ident);
      edges = trim-NoEdge col;
      no_upper = λ e.
          trim-All (λ c. is_upper c ≡ false) col
            (collapsed-All low rules.collapse_separators (λ c. is_upper c ≡ false) refl
              (lowered-NoUpper raw e));
      no_double = λ e.
          trim_right-NoDouble (trim_left col) (trim_left-NoDouble col (collapsed-NoDouble low e));
    }

-- Whatever the operationId and the rules, the sanitized identifier consists of letters, digits and
-- "_", neither begins nor ends with "_", has no capital where the rules ask for lower case, and no
-- two "_" in a row where they ask to collapse.
pub sanitize_identifier-IsSlug :
    (id : Text) (rules : SlugRules) → IsSlug rules (sanitize_identifier id rules)
unfolding sanitize_identifier
sanitize_identifier-IsSlug id rules = clean-IsSlug rules (camel_expanded rules.expand_camel_case id)

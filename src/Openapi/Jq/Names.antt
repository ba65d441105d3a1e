-- ===== src/Openapi/Jq/Names.antt =====
-- pkg/openapi/request_jq.go: jq reads the generated keys and fields as the names they stand for.
use go_auto_mcp.Prelude.{
  ℕ, ◌≡◌, refl, ap, ◌∙◌, Bool, true, false, ◌&&◌, not, some, [], ◌∷◌, ◌++◌, Text, codes, text_eq,
  nat_eq, ◌==◌, leb, cut_prefix, arith, Bool-cases, inl, inr,
}
use mathlib.Core.List.{append_assoc}
use go_auto_mcp.Openapi.Jq.{
  is_letter, in_identifier, all_in_identifier, is_jq_identifier, escape, jq_key, jq_access,
}
use go_auto_mcp.Openapi.Jq.Read.{
  and_read, closed, put, read_word, read_string, read_key, read_access,
}

-- a printable ASCII character other than a quote and a backslash
abbrev pub is_simple : ℕ → Bool
is_simple c = leb 32 c && leb c 126 && not (c == b'"') && not (c == b'\\')

unfoldable pub all_simple : Text → Bool
all_simple [] = true
all_simple (c ∷ s) = is_simple c && all_simple s

-- no character of an identifier follows
unfoldable pub word_ends : Text → Bool
word_ends [] = true
word_ends (c ∷ s) = not (in_identifier c)

pub read_word-append :
    (s rest : Text)
    → all_in_identifier s ≡ true
    → word_ends rest ≡ true
    → read_word (s ++ rest) ≡ (s, rest)
unfolding all_in_identifier word_ends read_word
read_word-append [] [] h e = refl
read_word-append [] (c ∷ rest) h e = ground arith
read_word-append (c ∷ s) rest h e = ground (arith, read_word-append s rest)

read_string-append :
    (s rest : Text) → all_simple s ≡ true → read_string (s ++ (b'"' ∷ rest)) ≡ some (s, rest)
unfolding all_simple read_string
read_string-append [] rest h = refl
read_string-append (c ∷ s) rest h = ground (arith, read_string-append s rest)

escape_simple : (s : Text) → all_simple s ≡ true → escape s ≡ s
unfolding all_simple escape
escape_simple [] h = refl
escape_simple (c ∷ s) h = ground (arith, escape_simple s)

first_letter : (c : ℕ) (s : Text) → is_jq_identifier (c ∷ s) ≡ true → is_letter c ≡ true
unfolding is_jq_identifier
first_letter c s h = ground arith

other_letters : (c : ℕ) (s : Text) → is_jq_identifier (c ∷ s) ≡ true → all_in_identifier s ≡ true
unfolding is_jq_identifier
other_letters c s h = ground arith

word_access :
    (c : ℕ) (s rest : Text)
    → is_letter c ≡ true
    → all_in_identifier s ≡ true
    → word_ends rest ≡ true
    → read_access (b'.' ∷ (c ∷ (s ++ rest))) ≡ some (c ∷ s, rest)
unfolding read_access read_word cut_prefix
word_access c s rest l h e =
    let not_bracket : (b'[' == c) ≡ false = ground arith in
    simp (not_bracket, l) (ap (λ r. some (put c r)) (read_word-append s rest h e))

quoted_access :
    (name rest : Text)
    → all_simple name ≡ true
    → read_access ((codes ".[\"" ++ (name ++ codes "\"]")) ++ rest) ≡ some (name, rest)
unfolding read_access cut_prefix
quoted_access name rest h =
    ap (λ t. and_read (some t) (λ r. closed (read_string r))) (append_assoc name (codes "\"]") rest)
    ∙ ap closed (read_string-append name (b']' ∷ rest) h)

pub read_access-jq_access :
    (name rest : Text)
    → all_simple name ≡ true
    → word_ends rest ≡ true
    → read_access (jq_access name ++ rest) ≡ some (name, rest)
unfolding jq_access is_jq_identifier
read_access-jq_access [] rest h e = quoted_access [] rest h
read_access-jq_access (c ∷ s) rest h e = elim (Bool-cases (is_jq_identifier (c ∷ s))) [
  | inl word ↦ simp word (word_access c s rest (first_letter c s word) (other_letters c s word) e)
  | inr other ↦ simp other (quoted_access (c ∷ s) rest h)
]

word_key :
    (c : ℕ) (s rest : Text)
    → is_letter c ≡ true
    → all_in_identifier s ≡ true
    → word_ends rest ≡ true
    → read_key (c ∷ (s ++ rest)) ≡ some (c ∷ s, rest)
unfolding read_key read_word
word_key c s rest l h e =
    let not_quote : (c == b'"') ≡ false = ground arith in
    simp (not_quote, l) (ap (λ r. some (put c r)) (read_word-append s rest h e))

quoted_key :
    (name rest : Text)
    → all_simple name ≡ true
    → read_key ((b'"' ∷ (escape name ++ (b'"' ∷ []))) ++ rest) ≡ some (name, rest)
unfolding read_key
quoted_key name rest h =
    ap (λ t. read_string ((t ++ (b'"' ∷ [])) ++ rest)) (escape_simple name h)
    ∙ (ap read_string (append_assoc name (b'"' ∷ []) rest) ∙ read_string-append name rest h)

pub read_key-jq_key :
    (name rest : Text)
    → all_simple name ≡ true
    → word_ends rest ≡ true
    → read_key (jq_key name ++ rest) ≡ some (name, rest)
unfolding jq_key all_in_identifier
read_key-jq_key [] rest h e = quoted_key [] rest h
read_key-jq_key (c ∷ s) rest h e = elim (Bool-cases (is_jq_identifier (c ∷ s))) [
  | inl word ↦ simp word (word_key c s rest (first_letter c s word) (other_letters c s word) e)
  | inr other ↦ simp other (quoted_key (c ∷ s) rest h)
]

-- ===== src/Command/Quote.antt =====
-- pkg/upstream/command/command.go, shellQuote: and what the shell reads of a quoted text.
use go_auto_mcp.Prelude.{
  ℕ, ◌≡◌, refl, ap, ◌∙◌, Bool, ◌||◌, Option, none, some, [], ◌∷◌, ◌++◌, Text, nat_eq, ◌==◌,
  beq_comm, if◌then◌else◌, Bool-cases, inl, inr,
}
use mathlib.Core.List.{append_assoc}

-- strings.ReplaceAll of the single quote
unfoldable pub escape_quotes : Text → Text
escape_quotes [] = []
escape_quotes (c ∷ s) =
    if c == b'\''
    then b'\'' ∷ (b'\\' ∷ (b'\'' ∷ (b'\'' ∷ escape_quotes s)))
    else c ∷ escape_quotes s

-- shellQuote
unfoldable pub shell_quote : Text → Text
unfolding escape_quotes
shell_quote s = b'\'' ∷ (escape_quotes s ++ (b'\'' ∷ []))

-- POSIX shell, 2.2 and 2.3: what reading a word is in the middle of
pub data Mode : Type 0 where
  plain quoted escaped : Mode

-- the characters that end a word
abbrev pub ends_word : ℕ → Bool
ends_word c =
    c == b' '
    || c == b'\t'
    || c == b'\n'
    || c == b'|'
    || c == b'&'
    || c == b';'
    || c == b'<'
    || c == b'>'
    || c == b'('
    || c == b')'

-- the characters that the shell expands, or reads in a way that is not described here
abbrev pub is_special : ℕ → Bool
is_special c =
    c == b'$'
    || c == b'`'
    || c == b'"'
    || c == b'*'
    || c == b'?'
    || c == b'['
    || c == b'#'
    || c == b'~'
    || c == b'='
    || c == b'{'
    || c == b'!'

abbrev pub put : ℕ → Option (Text × Text) → Option (Text × Text)
put c none = none
put c (some (word, rest)) = some (c ∷ word, rest)

-- The word that a text starts with, and the rest of the text; none where a quote is not closed, or
-- where the word has a special character.
unfoldable pub read_word : Mode → Text → Option (Text × Text)
read_word plain [] = some ([], [])
read_word quoted [] = none
read_word escaped [] = none
read_word plain (c ∷ s) =
    let in_quotes = read_word quoted s in
    let after_backslash = read_word escaped s in
    let more = read_word plain s in
    if c == b'\''
    then in_quotes
    else if c == b'\\'
    then after_backslash
    else if ends_word c
    then some ([], c ∷ s)
    else if is_special c
    then none
    else put c more
read_word quoted (c ∷ s) =
    let after = read_word plain s in
    let more = read_word quoted s in if c == b'\'' then after else put c more
read_word escaped (c ∷ s) = put c (read_word plain s)

-- a text in front of what was read
abbrev pub prepend : Text → Option (Text × Text) → Option (Text × Text)
prepend s none = none
prepend s (some (word, rest)) = some (s ++ word, rest)

prepend-put :
    (c : ℕ) (s : Text) (o : Option (Text × Text)) → put c (prepend s o) ≡ prepend (c ∷ s) o
prepend-put c s none = refl
prepend-put c s (some (word, rest)) = refl

prepend-nil : (o : Option (Text × Text)) → o ≡ prepend [] o
prepend-nil none = refl
prepend-nil (some (word, rest)) = refl

read_escaped :
    (s rest : Text)
    → read_word quoted (escape_quotes s ++ (b'\'' ∷ rest)) ≡ prepend s (read_word plain rest)
unfolding escape_quotes read_word
read_escaped [] rest = prepend-nil (read_word plain rest)
read_escaped (c ∷ s) rest =
    let ih = read_escaped s rest in
    elim (Bool-cases (c == b'\'')) [
      | inl same ↦
          let e : b'\'' ≡ c = (nat_eq.beq_iff b'\'' c).0 (beq_comm b'\'' c ∙ same) in
          simp same (
            ap (put b'\'') ih
            ∙ (prepend-put b'\'' s (read_word plain rest)
                ∙ ap (λ x. prepend (x ∷ s) (read_word plain rest)) e))
      | inr other ↦ simp other (ap (put c) ih ∙ prepend-put c s (read_word plain rest))
    ]

-- The shell reads a quoted text as that text, whatever it is, and goes on in the same word.
pub read_word-shell_quote :
    (s rest : Text) → read_word plain (shell_quote s ++ rest) ≡ prepend s (read_word plain rest)
unfolding shell_quote read_word
read_word-shell_quote s rest =
    ap (read_word quoted) (append_assoc (escape_quotes s) (b'\'' ∷ []) rest) ∙ read_escaped s rest
